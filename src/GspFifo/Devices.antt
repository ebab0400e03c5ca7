-- ===== src/GspFifo/Devices.antt =====
-- The table of engines and the search in it.
use rtxmac_oc.Base.{ℕ, zero, suc, ◌+◌, ◌*◌, ◌<◌, ◌≡◌, refl, arith, ltb, ◌==◌}
use rtxmac_oc.Base.{if◌then◌else◌, ◌≢◌, ◌⊎◌, inl, inr, Bool-cases, Option, none, some}
use rtxmac_oc.Base.{Result, ok, err, List, [], ◌∷◌, length, get_elem?, some_inj, ap}
use rtxmac_oc.Bytes.Defs.{Buffer, word32}
use rtxmac_oc.Bytes.Stores.{put32}
use rtxmac_oc.GspRm.Channel.{Gsp, Error, bounds}
use rtxmac_oc.GspRm.Object.{blank, Scratch, Answer, received, Call, after_call, rm_control}

-- `nv_gsp_fifo_engn`.
pub record Engine : Type 0 where
  pub eng_desc : ℕ
  pub rm_engine_type : ℕ
  pub runlist : ℕ
  pub runlist_pri_base : ℕ

unfoldable pub read_engines : Buffer → ℕ → ℕ → List Engine
read_engines p zero i = []
read_engines p (suc left) i =
    let e = 12 + i * 100 in
    record {
      eng_desc = word32 p e;
      rm_engine_type = word32 p (e + 8);
      runlist = word32 p (e + 12);
      runlist_pri_base = word32 p (e + 44);
    }
    ∷ read_engines p left (i + 1)

-- `nv_gsp_fifo_devinfo` as the list of its `count` engines.
unfoldable pub device_info_of : Result Error Answer → Result Error (List Engine)
device_info_of (err e) = err e
device_info_of (ok answer) =
    let p = received answer.params in
    let n = word32 p 4 in
    if answer.status == 0 then ok (read_engines p (if ltb 32 n then 32 else n) 0) else err bounds

unfoldable pub get_device_info : (gsp : Gsp) → Scratch → ℕ → ℕ → Call gsp (List Engine)
get_device_info gsp held h_client h_subdevice ch =
    after_call gsp device_info_of
      (rm_control gsp held h_client h_subdevice 0x20801112 (some (put32 (blank 3212) 0 0)) 3212 ch)

-- `none` is -1.
unfoldable pub find_engine_from : List Engine → ℕ → ℕ → Option ℕ
find_engine_from [] rm_engine_type i = none
find_engine_from (engine ∷ engines) rm_engine_type i =
    let rest = find_engine_from engines rm_engine_type (i + 1) in
    if engine.rm_engine_type == rm_engine_type then some i else rest

unfoldable pub find_engine : List Engine → ℕ → Option ℕ
find_engine engines rm_engine_type = find_engine_from engines rm_engine_type 0

-- The search gives the first engine of the type, or there is none.
pub record IsFirstEngine (engines : List Engine) (rm_engine_type i : ℕ) : Type 0 where
  pub engine : Engine
  pub there : get_elem? engines i ≡ some engine
  pub of_type : engine.rm_engine_type ≡ rm_engine_type
  pub first :
      (j : ℕ) (other : Engine)
      → j < i
      → get_elem? engines j ≡ some other
      → other.rm_engine_type ≢ rm_engine_type

-- Nothing of the type among the engines before `i`.
abbrev NoneBefore : List Engine → ℕ → ℕ → Type 0
NoneBefore engines rm_engine_type i =
    (j : ℕ) (other : Engine)
    → j < i
    → get_elem? engines j ≡ some other
    → other.rm_engine_type ≢ rm_engine_type

later_none :
    (engine : Engine) (engines : List Engine) (rm_engine_type i : ℕ)
    → engine.rm_engine_type ≢ rm_engine_type
    → NoneBefore engines rm_engine_type i
    → NoneBefore (engine ∷ engines) rm_engine_type (suc i)
later_none engine engines rm_engine_type i ne none_before zero other h e = rw (← some_inj e) ne
later_none engine engines rm_engine_type i ne none_before (suc j) other h e =
    none_before j other (omega (arith, h)) e

find_engine_from_lem :
    (engines : List Engine) (rm_engine_type start : ℕ)
    → ((i : ℕ) × (find_engine_from engines rm_engine_type start ≡ some (start + i))
        × IsFirstEngine engines rm_engine_type i)
      ⊎ ((find_engine_from engines rm_engine_type start ≡ none)
          × NoneBefore engines rm_engine_type (length engines))
unfolding find_engine_from
find_engine_from_lem [] rm_engine_type start = inr (refl, λ j other h. elim h [ ])
find_engine_from_lem (engine ∷ engines) rm_engine_type start =
    elim (Bool-cases (engine.rm_engine_type == rm_engine_type)) [
      | inl e ↦
          let here : start ≡ start + 0 = omega arith in
          inl (
            0,
            rw e (ap some here),
            record {
              engine = engine;
              there = refl;
              of_type = ground (arith, e);
              first = λ j other h. elim h [ ];
            },
          )
      | inr e ↦
          let ne : engine.rm_engine_type ≢ rm_engine_type = ground (arith, e) in
          elim (find_engine_from_lem engines rm_engine_type (start + 1)) [
            | inl (i, found, at) ↦
                let moved : start + 1 + i ≡ start + suc i = omega arith in
                inl (
                  suc i,
                  rw (e, ← moved) found,
                  record {
                    engine = at.engine;
                    there = at.there;
                    of_type = at.of_type;
                    first = later_none engine engines rm_engine_type i ne at.first;
                  },
                )
            | inr (missing, nowhere) ↦
                inr (
                  rw e missing,
                  later_none engine engines rm_engine_type (length engines) ne nowhere,
                )
          ]
    ]

-- nv_gsp_fifo_find_engine returns the index of the first engine of the type, and -1 exactly when the
-- table has none.
pub find_engine-IsFirstEngine :
    (engines : List Engine) (rm_engine_type : ℕ)
    → ((i : ℕ) × (find_engine engines rm_engine_type ≡ some i)
        × IsFirstEngine engines rm_engine_type i)
      ⊎ ((find_engine engines rm_engine_type ≡ none)
          × ((j : ℕ) (other : Engine)
              → j < length engines
              → get_elem? engines j ≡ some other
              → other.rm_engine_type ≢ rm_engine_type))
unfolding find_engine
find_engine-IsFirstEngine engines rm_engine_type =
    elim (find_engine_from_lem engines rm_engine_type 0) [
      | inl (i, found, at) ↦ let moved : 0 + i ≡ i = omega arith in inl (i, rw (← moved) found, at)
      | inr h ↦ inr h
    ]
