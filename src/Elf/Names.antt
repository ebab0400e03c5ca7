-- ===== src/Elf/Names.antt =====
-- The name of a section, as the loop of `nv_elf64_section` compares it.
use rtxmac_oc.Base.{ℕ, ◌+◌, ◌-◌, ◌≤◌, ◌≡◌, refl, arith, true, ltb, leb, not}
use rtxmac_oc.Base.{List, [], ◌∷◌, length, ◌↔◌}
use rtxmac_oc.Bytes.Defs.{Buffer, byte}
use rtxmac_oc.Bytes.Ensures.{Ensures, ok-Ensures, bind-Ensures, if-Ensures, ld8_value-Ensures}
use rtxmac_oc.Elf.Defs.{equal_bytes, same_bytes, is_named}

-- The characters of `name`, one after the other.
abbrev pub HasBytes : Buffer → ℕ → List ℕ → Type 0
HasBytes buf p [] = Unit
HasBytes buf p (c ∷ cs) = (byte buf p ≡ c) × HasBytes buf (p + 1) cs

-- The characters of `name` and a NUL stand at `sh_name` of the string table, and inside it.
pub record IsNamed (buf : Buffer) (name : List ℕ) (str_off str_size sh_name : ℕ) : Type 0 where
  pub inside : sh_name + length name + 1 ≤ str_size
  pub characters : HasBytes buf (str_off + sh_name) name
  pub nul : byte buf (str_off + sh_name + length name) ≡ 0

equal_bytes_iff :
    (buf : Buffer) (p : ℕ) (name : List ℕ) → (equal_bytes buf p name ≡ true) ↔ HasBytes buf p name
unfolding equal_bytes
equal_bytes_iff buf p [] = (λ e. tt, λ h. refl)
equal_bytes_iff buf p (c ∷ cs) =
    let rest = equal_bytes_iff buf (p + 1) cs in
    (λ e. (ground (arith, e), rest.0 (ground (arith, e))), λ h. ground (arith, h.0, rest.1 h.1))

-- Inside a file that holds the whole string table, the comparison reads nothing outside it and
-- finds exactly the section names that are `name`.
pub is_named-Ensures :
    (buf : Buffer) (name : List ℕ) (str_off str_size sh_name : ℕ)
    → str_off + str_size ≤ buf.len
    → Ensures
        (λ b. (b ≡ true) ↔ IsNamed buf name str_off str_size sh_name)
        (is_named buf name str_off str_size sh_name)
unfolding is_named same_bytes
is_named-Ensures buf name str_off str_size sh_name h =
    if-Ensures _ (leb str_size sh_name) _ _
      (λ out. ok-Ensures _ _ (λ e. cc, λ q. ground (arith, out, q.inside)))
      (λ low.
        if-Ensures _ (ltb (str_size - sh_name) (length name + 1)) _ _
          (λ short. ok-Ensures _ _ (λ e. cc, λ q. ground (arith, short, q.inside)))
          (λ room.
            let inside : sh_name + length name + 1 ≤ str_size = ground (arith, low, room) in
            let equal = equal_bytes_iff buf (str_off + sh_name) name in
            bind-Ensures _ (λ b. b ≡ equal_bytes buf (str_off + sh_name) name) _ _
              (if-Ensures _ (leb (str_off + sh_name + length name) buf.len) _ _
                (λ fit. ok-Ensures _ _ refl) (λ no_fit. absurd (ground (arith, no_fit, inside))))
              λ same is_same.
                if-Ensures _ (not same) _ _
                  (λ differ. ok-Ensures _ _ (λ e. cc, λ q. let t = equal.1 q.characters in cc))
                  (λ equal_names.
                    bind-Ensures _ (λ v. v ≡ byte buf (str_off + sh_name + length name)) _ _
                      (ld8_value-Ensures buf (str_off + sh_name + length name)
                        (omega (arith, inside)))
                      λ last is_last. ok-Ensures _ _ (
                        λ z. record {
                          inside = inside;
                          characters = equal.0 (ground (arith, equal_names, is_same));
                          nul = ground (arith, z, is_last);
                        },
                        λ q. ground (arith, q.nul, is_last),
                      ))))
