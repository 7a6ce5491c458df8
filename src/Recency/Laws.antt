-- ===== src/Recency/Laws.antt =====
-- What a put with a trim keeps.
use doxx.Base.{
  ℕ, ◌≤◌, ◌≡◌, refl, String, false, some, List, [], ◌∷◌, ◌++◌, arith, length, ltb, ◌==◌, ◌=s=◌,
  Bool-cases, inl, inr, All,
}
use text.Mathlib.TextPositions.{eq_refl}
use doxx.Recency.{get, forget, put, trim_loop, trim}

module _ {ℓ} {A : Type ℓ} where
  pub length-trim_loop : (n : ℕ) (d : List A) → length (trim_loop n d) ≤ n
  unfolding trim_loop
  length-trim_loop n [] = omega arith
  length-trim_loop n (x ∷ d) = ground (arith, length-trim_loop n d)

  pub trim_loop-fits : (n : ℕ) (d : List A) → length d ≤ n → trim_loop n d ≡ d
  unfolding trim_loop
  trim_loop-fits n [] h = refl
  trim_loop-fits n (x ∷ d) h =
      let fits : ltb n (length (x ∷ d)) ≡ false = ground arith in rw fits refl

  -- What has been trimmed is not trimmed further.
  pub trim_idem : (n : ℕ) (d : List A) → trim n (trim n d) ≡ trim n d
  unfolding trim
  trim_idem n d = elim (Bool-cases (n == 0)) [
    | inl z ↦ rw z refl
    | inr s ↦ rw s (trim_loop-fits n (trim_loop n d) (length-trim_loop n d))
  ]

module _ {ℓ} {V : Type ℓ} where
  forget-other : (k : String) (d : List (String × V)) → All (λ e. (e.0 =s= k) ≡ false) (forget k d)
  forget-other k [] = tt
  forget-other k ((j, w) ∷ d) = elim (Bool-cases (j =s= k)) [
    | inl t ↦ rw t (forget-other k d)
    | inr f ↦ rw f (f, forget-other k d)
  ]

  get-append :
      (k : String) (v : V) (d : List (String × V))
      → All (λ e. (e.0 =s= k) ≡ false) d
      → get k (d ++ ((k, v) ∷ [])) ≡ some v
  get-append k v [] h = rw (eq_refl k) refl
  get-append k v ((j, w) ∷ d) h = rw h.0 (get-append k v d h.1)

  -- The youngest entry stays, if there is room for one.
  get-trim_loop :
      (n : ℕ) (k : String) (v : V) (d : List (String × V))
      → 1 ≤ n
      → All (λ e. (e.0 =s= k) ≡ false) d
      → get k (trim_loop n (d ++ ((k, v) ∷ []))) ≡ some v
  unfolding trim_loop
  get-trim_loop n k v [] one h =
      let fits : ltb n 1 ≡ false = ground arith in rw (fits, eq_refl k) refl
  get-trim_loop n k v ((j, w) ∷ d) one h =
      elim (Bool-cases (ltb n (length ((j, w) ∷ d ++ ((k, v) ∷ []))))) [
        | inl t ↦ rw t (get-trim_loop n k v d one h.1)
        | inr f ↦ rw (f, h.0) (get-append k v d h.1)
      ]

  -- What was put last is found, and a positive limit is kept.
  pub put_trim_lem :
      (max_n : ℕ) (k : String) (v : V) (d : List (String × V))
      → (get k (trim max_n (put k v d)) ≡ some v)
        × (1 ≤ max_n → length (trim max_n (put k v d)) ≤ max_n)
  unfolding trim
  put_trim_lem max_n k v d = elim (Bool-cases (max_n == 0)) [
    | inl none_set ↦
        rw none_set (
          get-append k v (forget k d) (forget-other k d),
          λ h. absurd (ground (arith, h, none_set)),
        )
    | inr set ↦
        let one : 1 ≤ max_n = ground arith in
        rw set (
          get-trim_loop max_n k v (forget k d) one (forget-other k d),
          λ h. length-trim_loop max_n (put k v d),
        )
  ]
