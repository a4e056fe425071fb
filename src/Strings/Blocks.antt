-- ===== src/Strings/Blocks.antt =====
-- proj-pregame/src/lib/string.c: memcpy(), memmove() and memset().
use os_tools_and_features.Prelude.{
  ℕ, zero, suc, ◌+◌, ◌-◌, ◌<◌, ◌≤◌, ◌≡◌, ◌⊎◌, refl, ap, ◌∙◌, inl, inr, false, ◌&&◌, ◌==◌, ltb, leb,
  arith, tests, if◌then◌else◌, Bool-cases,
}
use os_tools_and_features.Prelude.Runs.{Run, ok}
use os_tools_and_features.Strings.{Bytes, copy_up, copy_down, memcpy, memmove}

-- The block of `size` bytes at `src`, copied to `dst`, as it was before.
abbrev pub moved : Bytes → ℕ → ℕ → ℕ → Bytes
moved m dst src size p = if leb dst p && ltb p (dst + size) then m (src + (p - dst)) else m p

abbrev pub Copies : {A : Type 0} → A → Bytes → ℕ → ℕ → ℕ → Run Bytes A → Type 0
Copies a m dst src size r = (g : Bytes) × (r ≡ ok a g) × ((p : ℕ) → g p ≡ moved m dst src size p)

-- One byte more, at the beginning and at the end.
module _ (m : Bytes) (dst src size : ℕ) where
  up :
      (dst ≤ src) ⊎ (src + suc size ≤ dst)
      → (p : ℕ)
      → moved (λ q. if q == dst then m src else m q) (suc dst) (suc src) size p
        ≡ moved m dst src (suc size) p
  up h p = elim (Bool-cases (leb (suc dst) p)) [
    | inl l ↦
        let e : suc src + (p - suc dst) ≡ src + (p - dst) = omega (tests, l) in
        ground (arith, ap m e)
    | inr l ↦ elim (Bool-cases (p == dst)) [
      | inl f ↦ let e : src + (p - dst) ≡ src = ground arith in ground (arith, ap m e)
      | inr f ↦ ground arith
    ]
  ]

  down :
      (src ≤ dst) ⊎ (dst + suc size ≤ src)
      → (p : ℕ)
      → moved (λ q. if q == dst + size then m (src + size) else m q) dst src size p
        ≡ moved m dst src (suc size) p
  down h p = elim (Bool-cases (p == dst + size)) [
    | inl f ↦ let e : src + (p - dst) ≡ src + size = ground arith in ground (arith, ap m e)
    | inr f ↦ ground arith
  ]

copy_up-Copies :
    (size : ℕ) (m : Bytes) (dst src : ℕ)
    → (dst ≤ src) ⊎ (src + size ≤ dst)
    → Copies tt m dst src size (copy_up size dst src m)
unfolding copy_up
copy_up-Copies zero m dst src h = (m, refl, λ p. ground arith)
copy_up-Copies (suc size) m dst src h =
    let m' : Bytes = λ q. if q == dst then m src else m q in
    let (g, r, e) = copy_up-Copies size m' (suc dst) (suc src) (ground arith) in
    (g, r, λ p. e p ∙ up m dst src size h p)

copy_down-Copies :
    (size : ℕ) (m : Bytes) (dst src : ℕ)
    → (src ≤ dst) ⊎ (dst + size ≤ src)
    → Copies tt m dst src size (copy_down size dst src m)
unfolding copy_down
copy_down-Copies zero m dst src h = (m, refl, λ p. ground arith)
copy_down-Copies (suc size) m dst src h =
    let m' : Bytes = λ q. if q == dst + size then m (src + size) else m q in
    let (g, r, e) = copy_down-Copies size m' dst src (ground arith) in
    (g, r, λ p. e p ∙ down m dst src size h p)

module _ (m : Bytes) (dst src size : ℕ) where
  pub memcpy-Copies :
      0 < dst
      → 0 < src
      → (dst ≤ src) ⊎ (src + size ≤ dst)
      → Copies dst m dst src size (memcpy dst src size m)
  unfolding memcpy
  memcpy-Copies z w h =
      let e : (dst == 0) ≡ false = ground arith in
      let f : (src == 0) ≡ false = ground arith in
      let (g, r, k) = copy_up-Copies size m dst src h in (g, rw (e, f) (rw r refl), k)

  -- memmove() between addresses that are not null copies a block, as it was before the call, also when
  -- the two overlap, and changes no other byte. It returns the end of the destination when the
  -- destination is before the source, and its beginning otherwise.
  pub memmove-Copies :
      0 < dst
      → 0 < src
      → Copies (if ltb dst src then dst + size else dst) m dst src size (memmove dst src size m)
  unfolding memmove
  memmove-Copies z w =
      let e : (dst == 0) ≡ false = ground arith in
      let f : (src == 0) ≡ false = ground arith in
      elim (Bool-cases (ltb dst src)) [
        | inl h ↦
            let (g, r, k) = copy_up-Copies size m dst src (inl (ground arith)) in
            (g, rw (e, f, h) (rw r refl), k)
        | inr h ↦
            let (g, r, k) = copy_down-Copies size m dst src (inl (ground arith)) in
            (g, rw (e, f, h) (rw r refl), k)
      ]
