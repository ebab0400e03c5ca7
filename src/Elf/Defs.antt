-- ===== src/Elf/Defs.antt =====
-- `nv_elf64_section`.
use rtxmac_oc.Base.{ℕ, zero, suc, ◌+◌, ◌-◌, ◌*◌, Bool, true, false, ltb, leb, ◌==◌, not, ◌&&◌}
use rtxmac_oc.Base.{if◌then◌else◌}
use rtxmac_oc.Base.{List, [], ◌∷◌, length, ok, err}
use rtxmac_oc.Bytes.Defs.{
  Buffer, Outcome, fault, code, guard, ◌>>=◌, ◌>>◌, byte, ld8, ld16, ld32, ld64, fits,
}

pub data Error : Type 0 where
  bounds format no_section : Error

-- `memcmp(s, name, namelen) == 0`; the whole range counts as read.
unfoldable pub equal_bytes : Buffer → ℕ → List ℕ → Bool
equal_bytes buf p [] = true
equal_bytes buf p (c ∷ cs) = (byte buf p == c) && equal_bytes buf (p + 1) cs

unfoldable pub same_bytes : Buffer → ℕ → List ℕ → Outcome Error Bool
same_bytes buf p name =
    if leb (p + length name) buf.len then ok (equal_bytes buf p name) else err fault

-- The tests of the loop that `continue`: whether the section name at `sh_name` is `name`. A name is
-- the list of its characters, without the NUL.
unfoldable pub is_named : Buffer → List ℕ → ℕ → ℕ → ℕ → Outcome Error Bool
is_named buf name str_off str_size sh_name =
    if leb str_size sh_name
    then ok false
    else if ltb (str_size - sh_name) (length name + 1)
    then ok false
    else do
      same ← same_bytes buf (str_off + sh_name) name
      if not same
          then ok false
          else do last ← ld8 buf (str_off + sh_name + length name); ok (last == 0)

-- The loop over the section headers, from the one at `sh` on.
unfoldable pub find_section : Buffer → List ℕ → ℕ → ℕ → ℕ → ℕ → ℕ → Outcome Error (ℕ × ℕ)
find_section buf name str_off str_size shentsz zero sh = err (code no_section)
find_section buf name str_off str_size shentsz (suc rounds) sh =
    let later = find_section buf name str_off str_size shentsz rounds (sh + shentsz) in
    do
      sh_name ← ld32 buf sh
      named ← is_named buf name str_off str_size sh_name
      if not named then later else do
        so ← ld64 buf (sh + 0x18)
        ss ← ld64 buf (sh + 0x20)
        guard (fits so ss buf.len) bounds
        ok (so, ss)

unfoldable pub elf64_section : Buffer → List ℕ → Outcome Error (ℕ × ℕ)
elf64_section buf name = do
  guard (not (ltb buf.len 64)) bounds
  b0 ← ld8 buf 0
  b1 ← ld8 buf 1
  b2 ← ld8 buf 2
  b3 ← ld8 buf 3
  guard ((b0 == 0x7f) && (b1 == b'E') && (b2 == b'L') && (b3 == b'F')) format
  b4 ← ld8 buf 4
  b5 ← ld8 buf 5
  guard ((b4 == 2) && (b5 == 1)) format
  shoff ← ld64 buf 0x28
  shentsz ← ld16 buf 0x3a
  shnum ← ld16 buf 0x3c
  shstrnd ← ld16 buf 0x3e
  guard (not (ltb shentsz 64) && not (shnum == 0)) format
  guard (fits shoff (shnum * shentsz) buf.len) bounds
  guard (ltb shstrnd shnum) format
  str_off ← ld64 buf (shoff + shstrnd * shentsz + 0x18)
  str_size ← ld64 buf (shoff + shstrnd * shentsz + 0x20)
  guard (fits str_off str_size buf.len) bounds
  find_section buf name str_off str_size shentsz shnum shoff
