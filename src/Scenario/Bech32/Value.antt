-- ===== src/Scenario/Bech32/Value.antt =====
-- scripts/scenario.py: `pubkey_b64`, the regrouping of five-bit symbols into bytes as numbers.
use cryptocourt.Base.{
  ℕ, zero, suc, ◌+◌, ◌*◌, ◌/◌, ◌%◌, ◌^◌, ◌<◌, ◌≡◌, refl, ap, ◌∙◌, List, [], ◌∷◌, ◌++◌, All, length,
  arith,
}
use cryptocourt.Scenario.Bech32.{Bytes, flush, regroup}

-- The number that digits of the base spell behind `n`.
abbrev pub number : (base n : ℕ) → List ℕ → ℕ
number base n [] = n
number base n (d ∷ ds) = number base (n * base + d) ds

number-append :
    (base n : ℕ) (xs ys : List ℕ) → number base n (xs ++ ys) ≡ number base (number base n xs) ys
number-append base n [] ys = refl
number-append base n (x ∷ xs) ys = number-append base (n * base + x) xs ys

-- One symbol: `out` is the number of the bytes so far, which are the upper bits of `acc`.
record Flushed (acc bits out : ℕ) (r : Bytes × ℕ) : Type 0 where
  spelled : number 256 out r.0 ≡ acc / 2 ^ r.1
  few : r.1 < 8
  left : r.1 ≡ bits % 8

flush_lem :
    (bits acc v out : ℕ)
    → bits < 8
    → v < 32
    → out ≡ acc / 2 ^ bits
    → Flushed (acc * 32 + v) (bits + 5) out (flush (bits + 5) (acc * 32 + v) (bits + 5))
unfolding flush
flush_lem zero acc v out h hv ho = record { spelled = omega arith; few = omega arith; left = refl }
flush_lem (suc zero) acc v out h hv ho = record {
  spelled = omega arith;
  few = omega arith;
  left = refl;
}
flush_lem (suc (suc zero)) acc v out h hv ho = record {
  spelled = omega arith;
  few = omega arith;
  left = refl;
}
flush_lem (suc (suc (suc zero))) acc v out h hv ho = record {
  spelled = omega arith;
  few = omega arith;
  left = refl;
}
flush_lem (suc (suc (suc (suc zero)))) acc v out h hv ho = record {
  spelled = omega arith;
  few = omega arith;
  left = refl;
}
flush_lem (suc (suc (suc (suc (suc zero))))) acc v out h hv ho = record {
  spelled = omega arith;
  few = omega arith;
  left = refl;
}
flush_lem (suc (suc (suc (suc (suc (suc zero)))))) acc v out h hv ho = record {
  spelled = omega arith;
  few = omega arith;
  left = refl;
}
flush_lem (suc (suc (suc (suc (suc (suc (suc zero))))))) acc v out h hv ho = record {
  spelled = omega arith;
  few = omega arith;
  left = refl;
}
flush_lem (suc (suc (suc (suc (suc (suc (suc (suc k)))))))) acc v out h hv ho = absurd (omega arith)

regroup_from :
    (vs : List ℕ) (acc bits out : ℕ)
    → bits < 8
    → out ≡ acc / 2 ^ bits
    → All (λ v. v < 32) vs
    → number 256 out (regroup acc bits vs) ≡ number 32 acc vs / 2 ^ ((bits + 5 * length vs) % 8)
unfolding regroup
regroup_from [] acc bits out h ho hvs =
    let same : bits ≡ (bits + 5 * 0) % 8 = omega arith in ho ∙ ap (λ (k : ℕ). acc / 2 ^ k) same
regroup_from (v ∷ vs) acc bits out h ho (hv, hvs) =
    let read : ℕ = acc * 32 + v in
    let r = flush (bits + 5) read (bits + 5) in
    let step = flush_lem bits acc v out h hv ho in
    let same : (r.1 + 5 * length vs) % 8 ≡ (bits + 5 * suc (length vs)) % 8 =
      omega (arith, step.left) in
    number-append 256 out r.0 (regroup read r.1 vs)
    ∙ regroup_from vs read r.1 (number 256 out r.0) step.few step.spelled hvs
    ∙ ap (λ (k : ℕ). number 32 read vs / 2 ^ k) same

-- Read as numbers of base 256 and of base 32, the bytes are the symbols without the last bits, those
-- that fill no byte.
pub number-regroup :
    (vs : List ℕ)
    → All (λ v. v < 32) vs
    → number 256 0 (regroup 0 0 vs) ≡ number 32 0 vs / 2 ^ ((5 * length vs) % 8)
number-regroup vs h =
    let same : (0 + 5 * length vs) % 8 ≡ (5 * length vs) % 8 = omega arith in
    regroup_from vs 0 0 0 (omega arith) refl h ∙ ap (λ (k : ℕ). number 32 0 vs / 2 ^ k) same
