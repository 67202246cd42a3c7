-- ===== src/Strings.antt =====
-- `umovestr` of utrace-0.1/sysdeps/linux-gnu/trace.c: a string is copied out of the tracee, word by
-- word. The buffer at `laddr` is a list of bytes, and a write outside of it is undefined.
pub mod Umovestr
pub mod Shown
pub mod Quoted
use utrace.Common.{
  ℕ, zero, suc, ◌+◌, Bool, not, ◌&&◌, List, [], ◌∷◌, ◌==◌, if◌then◌else◌, ltb, length, set,
}
use utrace.Run.{Run, ok, fault, undefined, ◌>>=◌}
use utrace.Ptrace.{Ptrace}

-- After a word: the string has ended, or the next word is needed.
pub data Copy : Type 0 where
  ended more : List ℕ → Copy

-- `*(char *)(laddr+pos) = c`
abbrev pub put : List ℕ → ℕ → ℕ → Run (List ℕ)
put buf pos c = if ltb pos (length buf) then ok (set buf pos c) else fault undefined

-- The loop over the bytes of a word; `pos` is `offset+i`.
unfoldable pub copy_bytes : (len : ℕ) → List ℕ → ℕ → List ℕ → Run Copy
copy_bytes len [] pos buf = ok (more buf)
copy_bytes len (c ∷ cs) pos buf =
    if not (c == 0) && ltb pos len
    then (put buf pos c >>= λ buf'. copy_bytes len cs (pos + 1) buf')
    else (put buf pos 0 >>= λ buf'. ok (ended buf'))

module _ (sizeof_long : ℕ) (p : Ptrace) (k : p.Kernel) (tid addr len : ℕ) where
  -- `while(offset<len)`, with the number of rounds that are left.
  unfoldable pub copy_words : ℕ → ℕ → List ℕ → Run (List ℕ)
  unfolding copy_bytes
  copy_words zero offset buf = if ltb offset len then fault undefined else put buf offset 0
  copy_words (suc n) offset buf =
      if ltb offset len
      then (copy_bytes len (p.peek_text k tid (addr + offset)) offset buf >>= λ c. elim c [
        | ended buf' ↦ ok buf'
        | more buf' ↦ copy_words n (offset + sizeof_long) buf'
      ])
      else put buf offset 0

  unfoldable pub umovestr : List ℕ → Run (List ℕ)
  unfolding copy_words
  umovestr laddr = copy_words len 0 laddr
