-- ===== src/Physics/Scan/Balanced.antt =====
-- scripts/check-demo-physics.py: `_brace_block` takes the shortest part that closes.
use mathlib.Core.Path.{subst}
use cryptocourt.Base.{
  ℕ, suc, ◌-◌, ◌<◌, ◌≡◌, refl, ap, sym, false, ◌⊎◌, inl, inr, [], ◌∷◌, ◌++◌, arith, ◌==◌,
  if◌then◌else◌,
}
use cryptocourt.Base.Tests.{Bool-cases}
use cryptocourt.Base.Text.{Text}
use cryptocourt.Physics.Scan.{block_from}

-- The number of braces that are open behind a character, and behind a text.
abbrev pub depth_behind : ℕ → ℕ → ℕ
depth_behind c depth = if c == b'{' then suc depth else if c == b'}' then depth - 1 else depth

abbrev pub depth_after : ℕ → Text → ℕ
depth_after depth [] = depth
depth_after depth (c ∷ s) = depth_after (depth_behind c depth) s

-- A brace is open in front of every character.
abbrev pub StaysOpen : ℕ → Text → Type 0
StaysOpen depth [] = Unit
StaysOpen depth (c ∷ s) = (0 < depth) × StaysOpen (depth_behind c depth) s

-- A text's part that begins it, stays open and closes, or else is all of it.
abbrev pub IsBlock : ℕ → Text → Text → Type 0
IsBlock depth s block =
    StaysOpen depth block
    × ((rest : Text) × (s ≡ block ++ rest) × ((depth_after depth block ≡ 0) ⊎ (rest ≡ [])))

onto_same :
    (c depth : ℕ) (s block : Text)
    → 0 < depth
    → IsBlock (depth_behind c depth) s block
    → IsBlock depth (c ∷ s) (c ∷ block)
onto_same c depth s block positive (stays, (rest, e, ends)) =
    ((positive, stays), (rest, ap (λ t. c ∷ t) e, ends))

onto :
    (c depth deeper : ℕ) (s block : Text)
    → 0 < depth
    → depth_behind c depth ≡ deeper
    → IsBlock deeper s block
    → IsBlock depth (c ∷ s) (c ∷ block)
onto c depth deeper s block positive e h =
    onto_same c depth s block positive (subst (λ d. IsBlock d s block) (sym e) h)

closing :
    (c depth : ℕ) (s : Text) → 0 < depth → depth_behind c depth ≡ 0 → IsBlock depth (c ∷ s) (c ∷ [])
closing c depth s positive e = ((positive, tt), (s, refl, inl e))

deeper_left : (depth : ℕ) → 0 < depth → (depth == 1) ≡ false → 0 < depth - 1
deeper_left depth positive g = ground arith

-- The block that opens at some depth stays open up to its end, where it closes; only a text that
-- never closes is taken whole.
pub block_from-IsBlock : (depth : ℕ) (s : Text) → 0 < depth → IsBlock depth s (block_from depth s)
unfolding block_from
block_from-IsBlock depth [] positive = (tt, ([], refl, inr refl))
block_from-IsBlock depth (c ∷ s) positive = elim (Bool-cases (c == b'{')) [
  | inl e ↦
      rw (block_from, e)
        (onto c depth (suc depth) s (block_from (suc depth) s) positive (rw e refl)
          (block_from-IsBlock (suc depth) s (omega arith)))
  | inr e ↦ elim (Bool-cases (c == b'}')) [
    | inr f ↦
        rw (block_from, e, f)
          (onto c depth depth s (block_from depth s) positive (rw (e, f) refl)
            (block_from-IsBlock depth s positive))
    | inl f ↦ elim (Bool-cases (depth == 1)) [
      | inl g ↦ rw (block_from, e, f, g) (closing c depth s positive (ground (arith, e, f, g)))
      | inr g ↦
          rw (block_from, e, f, g)
            (onto c depth (depth - 1) s (block_from (depth - 1) s) positive (rw (e, f) refl)
              (block_from-IsBlock (depth - 1) s (deeper_left depth positive g)))
    ]
  ]
]
