-- ===== src/Progressive/Examples.antt =====
-- A pattern of a file in some folder, and a partition that is in conflict about it.
use repotraverse.Prelude.{◌≡◌, refl, ◌↔◌, true, none, some, [], ◌∷◌, codes}
use repotraverse.Progressive.{wildcard, Partition, developer_label, label_of, matches, next_row}
use repotraverse.Progressive.Wildcard.{Matches, wildcard_iff}
use repotraverse.Progressive.Labels.{AnyMatches, developer_label_conflict}

wildcard_iff_example :
    (wildcard (codes "s*/?.c") (codes "src/a.c") ≡ true)
    ↔ Matches (codes "s*/?.c") (codes "src/a.c")
wildcard_iff_example = wildcard_iff (codes "s*/?.c") (codes "src/a.c")

abbrev partition : Partition
partition = record {
  exclude = none;
  stable = some (codes "src/*" ∷ []);
  variable = some (codes "*.h" ∷ codes "*/a.?" ∷ []);
}

developer_label_conflict_example :
    (developer_label partition (codes "src/a.c") ≡ codes "conflict") ↔ (
      ¬ AnyMatches partition.exclude (codes "src/a.c")
      × AnyMatches partition.stable (codes "src/a.c")
      × AnyMatches partition.variable (codes "src/a.c"))
developer_label_conflict_example = developer_label_conflict partition (codes "src/a.c")

conflict : developer_label partition (codes "src/a.c") ≡ codes "conflict"
unfolding developer_label label_of matches wildcard next_row
conflict = refl
