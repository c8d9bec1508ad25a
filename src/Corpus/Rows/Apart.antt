-- ===== src/Corpus/Rows/Apart.antt =====
-- What a corpus without a clash is.
use cryptocourt.Base.{map-eq-nil, ◌≡◌, ◌↔◌, true, List, [], map, append-eq-nil}
use cryptocourt.Base.Text.{◌=text◌}
use cryptocourt.Base.Groups.{repeated, are_distinct}
use cryptocourt.Base.Groups.Laws.{repeated-nil}
use cryptocourt.Corpus.Rows.{
  Placed, duplicate_triple, duplicate_label, same_key, mutations, labels, cross_verdicts,
}

-- The guard finds no clash between rows, of one corpus file or of several, exactly if no two rows are the same
-- mutation and no two have the same label.
pub cross_verdicts-nil :
    (pairs : List Placed)
    → (cross_verdicts pairs ≡ []) ↔ (
        (are_distinct same_key (mutations pairs) ≡ true)
        × (are_distinct ◌=text◌ (labels pairs) ≡ true))
unfolding cross_verdicts
cross_verdicts-nil pairs = (
  λ h.
      let (triples, names) =
        append-eq-nil (map duplicate_triple (repeated same_key (mutations pairs))) _ h in
      (
        (repeated-nil same_key (mutations pairs)).0 (map-eq-nil duplicate_triple _ triples),
        (repeated-nil ◌=text◌ (labels pairs)).0 (map-eq-nil duplicate_label _ names),
      ),
  λ (triples, names). rw (
    (repeated-nil same_key (mutations pairs)).1 triples,
    (repeated-nil ◌=text◌ (labels pairs)).1 names,
  ),
)
