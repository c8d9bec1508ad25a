-- ===== src/Collisions/Staged.antt =====
-- scripts/check-mutant-collisions.py beside scripts/mutate.py: both make the same mutant of a row.
use mathlib.Core.Option.{some_inj}
use cryptocourt.Base.{
  ◌≡◌, ◌≢◌, inl, inr, refl, ap, sym, ◌∙◌, Bool, true, false, Option, none, some, ◌==◌, ==_iff,
  if◌then◌else◌, Option-cases, Bool-cases,
}
use cryptocourt.Base.Text.{Text, ◌=text◌, count, replace}
use cryptocourt.Base.Text.Replace.First.{replace_first, index, replace_first-replace}
use cryptocourt.Base.Text.Laws.{=text_refl}
use cryptocourt.Base.Disk.{Disk, get_file, join_path}
use cryptocourt.Shadow.{stage, is_staged_file}
use cryptocourt.Mutate.Tables.{pkg_table, find_pkg}
use cryptocourt.Mutate.Suite.{Row, row_pkg, source_dir, stage_pairs, row_rel, apply_mutation}
use cryptocourt.Mutate.Suite.Sources.{apply_mutation-some}
use cryptocourt.Mutate.Suite.Splice.{get_file-put_file, write_dir_self}
use cryptocourt.Mutate.Suite.Staged.{stage-find_pkg, get_file-staged_files}
use cryptocourt.Corpus.Rows.{RawRow, Triple, required}
use cryptocourt.Corpus.Batch.{row_of}
use cryptocourt.Corpus.Batch.Promise.{Unstaged, find_pkg-Unstaged}
use cryptocourt.Collisions.{
  Mutant, mutant, classify_text, classify_pair, classify, entry_of, or_empty,
}
use cryptocourt.Collisions.Unused.{unused_after}

mutant_inj : {m n : Mutant} → mutant m ≡ mutant n → m ≡ n
mutant_inj h = cc h

module _ (parses : Text → Bool) where
  -- What a usable row's mutant is of its file's text.
  pub record Made (f src find swap : Text) (m : Mutant) : Type 0 where
    pub named : m.of_file ≡ f
    pub once : count find src ≡ 1
    pub same : m.mutated ≡ replace find swap src
    pub changed : m.mutated ≢ src
    pub parsed : parses m.mutated ≡ true
    pub settled : unused_after m.mutated (index find src) ≡ none

  Made-first :
      (f src find swap : Text)
      → (count find src == 1) ≡ true
      → (replace_first find swap src =text src) ≡ false
      → parses (replace_first find swap src) ≡ true
      → unused_after (replace_first find swap src) (index find src) ≡ none
      → Made f src find swap (record { of_file = f; mutated = replace_first find swap src })
  Made-first f src find swap once e p u =
      let once' = (==_iff (count find src) 1).0 once in
      record {
        named = refl;
        once = once';
        same = replace_first-replace find swap src once';
        changed = λ same. cc (e, same, =text_refl src);
        parsed = p;
        settled = u;
      }

  classify_text-Made :
      (f src find swap : Text) (m : Mutant)
      → classify_text parses f src find swap ≡ mutant m
      → Made f src find swap m
  unfolding classify_text
  classify_text-Made f src find swap m h = elim (Bool-cases (count find src == 1)) [
    | inl once ↦ elim (Bool-cases (replace_first find swap src =text src)) [
      | inl e ↦ absurd (cc (rw (once, e, classify_text) at h))
      | inr e ↦ elim (Bool-cases (parses (replace_first find swap src))) [
        | inl p ↦
            elim (Option-cases (unused_after (replace_first find swap src) (index find src))) [
              | inl u ↦
                  let made = mutant_inj (rw (once, e, p, u, classify_text) at h) in
                  rw (← made) (Made-first f src find swap once e p u)
              | inr (name, u) ↦ absurd (cc (rw (once, e, p, u, classify_text) at h))
            ]
        | inr p ↦ absurd (cc (rw (once, e, p, classify_text) at h))
      ]
    ]
    | inr e ↦ absurd (cc (rw (e, classify_text) at h))
  ]

  -- A row that has a mutant: its package, its file's text, its anchor and its substitute.
  pub record Source (repo : Text) (disk : Disk) (r : RawRow) (m : Mutant) : Type 0 where
    pub pkg : Text
    pub dirs : Text × Text
    pub src : Text
    pub find : Text
    pub swap : Text
    pub packed : r.pkg ≡ some pkg
    pub known : find_pkg pkg pkg_table ≡ some dirs
    pub held : get_file (or_empty r.file) (disk (source_dir repo dirs.0)) ≡ some src
    pub anchored : r.find ≡ some find
    pub swapped : r.substitute ≡ some swap
    pub made : Made (or_empty r.file) src find swap m

  classify_pair-texts :
      (f src : Text) (find swap : Option Text) (m : Mutant)
      → classify_pair parses f src find swap ≡ mutant m
      → (a : Text) × (b : Text) × (find ≡ some a) × (swap ≡ some b) × Made f src a b m
  unfolding classify_pair
  classify_pair-texts f src none swap m h = absurd (cc h)
  classify_pair-texts f src (some a) none m h = absurd (cc h)
  classify_pair-texts f src (some a) (some b) m h =
      (a, b, refl, refl, classify_text-Made f src a b m h)

  entry_of-some :
      (o : Option Text) (dirs : Text × Text)
      → entry_of o ≡ some dirs
      → (p : Text) × (o ≡ some p) × (find_pkg p pkg_table ≡ some dirs)
  unfolding entry_of
  entry_of-some none dirs h = absurd (cc h)
  entry_of-some (some p) dirs h = (p, refl, h)

  pub classify-Source :
      (repo : Text) (disk : Disk) (r : RawRow) (m : Mutant)
      → classify parses repo disk r ≡ mutant m
      → Source repo disk r m
  unfolding classify
  classify-Source repo disk r m h = elim (Option-cases (entry_of r.pkg)) [
    | inl e ↦ absurd (cc (rw (e, classify) at h))
    | inr (dirs, e) ↦
        elim (Option-cases (get_file (or_empty r.file) (disk (source_dir repo dirs.0)))) [
          | inl g ↦ absurd (cc (rw (e, classify, g) at h))
          | inr (src, g) ↦
              let (p, packed, known) = entry_of-some r.pkg dirs e in
              let (a, b, anchored, swapped, made) =
                classify_pair-texts (or_empty r.file) src r.find r.substitute m
                  (rw (e, classify, g) at h) in
              record {
                pkg = p;
                dirs = dirs;
                src = src;
                find = a;
                swap = b;
                packed = packed;
                known = known;
                held = g;
                anchored = anchored;
                swapped = swapped;
                made = made;
              }
        ]
  ]

required-texts :
    (r : RawRow) (t : Triple)
    → required r ≡ some t
    → (r.file ≡ some t.at_file) × (r.find ≡ some t.anchor) × (r.substitute ≡ some t.swap)
unfolding required
required-texts r t h = elim (Option-cases r.file) [
  | inl e ↦ absurd (cc (rw (e, required) at h))
  | inr (f, e) ↦ elim (Option-cases r.find) [
    | inl g ↦ absurd (cc (rw (e, required, g) at h))
    | inr (a, g) ↦ elim (Option-cases r.substitute) [
      | inl k ↦ absurd (cc (rw (e, required, g, k) at h))
      | inr (b, k) ↦ let same = some_inj.0 (rw (e, required, g, k) at h) in rw (← same) (e, g, k)
    ]
  ]
]

row_pkg-row_of :
    (label : Text) (t : Triple) (r : RawRow) (p : Text)
    → r.pkg ≡ some p
    → row_pkg (row_of label t r) ≡ p
unfolding row_pkg row_of
row_pkg-row_of label t r p e = rw e refl

-- What the staged directory of the row's package holds of its file.
staged-Source :
    (parses : Text → Bool) (repo root : Text) (disk : Disk) (r : RawRow) (f : Text) (m : Mutant)
    (s : Source parses repo disk r m)
    → Unstaged repo root pkg_table
    → r.file ≡ some f
    → is_staged_file f ≡ true
    → get_file f (stage root (stage_pairs repo) disk (join_path root s.dirs.1)) ≡ some s.src
staged-Source parses repo root disk r f m s apart named copied =
    let out = find_pkg-Unstaged repo root s.pkg pkg_table s.dirs s.known apart in
    let held : get_file f (disk (source_dir repo s.dirs.0)) ≡ some s.src =
      ap (λ n. get_file (or_empty n) (disk (source_dir repo s.dirs.0))) (sym named) ∙ s.held in
    ap (get_file f) (stage-find_pkg repo root s.pkg s.dirs disk s.known out)
    ∙ get_file-staged_files f (disk (source_dir repo s.dirs.0))
    ∙ ap (λ b. if b then get_file f (disk (source_dir repo s.dirs.0)) else none) copied
    ∙ held

row_rel-known :
    (m : Row) (dirs : Text × Text) → find_pkg (row_pkg m) pkg_table ≡ some dirs → row_rel m ≡ dirs.1
unfolding row_rel
row_rel-known m dirs e = rw (e, row_rel) refl

-- The mutant that this guard takes of a row is the text that a cycle of mutate.py gives the row's file in the
-- staged tree, if the sources are outside the staged trees and staging copies the file.
pub classify-apply_mutation :
    (parses : Text → Bool) (repo root label : Text) (disk : Disk) (r : RawRow) (t : Triple)
    (m : Mutant)
    → Unstaged repo root pkg_table
    → required r ≡ some t
    → is_staged_file t.at_file ≡ true
    → classify parses repo disk r ≡ mutant m
    → (d : Disk) × (apply_mutation root (row_of label t r) (stage root (stage_pairs repo) disk)
        ≡ some d)
      × (get_file t.at_file (d (join_path root (row_rel (row_of label t r)))) ≡ some m.mutated)
unfolding row_of
classify-apply_mutation parses repo root label disk r t m apart e copied h =
    let s = classify-Source parses repo disk r m h in
    let (named, anchored, swapped) = required-texts r t e in
    let find : s.find ≡ t.anchor = some_inj.0 (sym s.anchored ∙ anchored) in
    let swap : s.swap ≡ t.swap = some_inj.0 (sym s.swapped ∙ swapped) in
    let known : find_pkg (row_pkg (row_of label t r)) pkg_table ≡ some s.dirs =
      ap (λ p. find_pkg p pkg_table) (row_pkg-row_of label t r s.pkg s.packed) ∙ s.known in
    let staged : Disk = stage root (stage_pairs repo) disk in
    let held = staged-Source parses repo root disk r t.at_file m s apart named copied in
    (
      _,
      apply_mutation-some root (row_of label t r) staged known held,
      rw (row_rel-known (row_of label t r) s.dirs known, write_dir_self)
          (get_file-put_file t.at_file _ _ ∙ ap some (sym (s.made.same ∙ rw (find, swap) refl))),
    )
