-- ===== src/Lineage/Relate.antt =====
-- src/lineage.cpp: the relation candidates of `trace_transition`, and its result. Elements are looked
-- up by `.at`, which throws on an identity that is not there: that is `none` here. `dump` is the JSON
-- text of a list of identities. The `referenced_compiler_ids` are sorted, as `std::binary_search`
-- requires; `std::sort` is insertion sort.
pub mod Total
mod Examples
use repotraverse.Prelude.{
  ℕ, zero, suc, ◌+◌, ◌-◌, ◌*◌, ◌/◌, ◌%◌, ◌^◌, ◌≤◌, ◌<◌, ◌≡◌, refl, sym, ap, ◌∙◌, subst, ◌≢◌, ◌↔◌,
  ◌⊎◌, inl, inr, Bool, true, false, ◌&&◌, ◌||◌, not, Option, none, some, List, [], ◌∷◌, ◌++◌, map,
  append_assoc, append-nil, arith, ltb, leb, ◌==◌, within, if◌then◌else◌, ltb→lt, lt→ltb, leb→le,
  ==_iff, Bool-cases, Option-cases, Bytes, codes, text_eq, text_eq_iff, is_empty, length, take,
  drop, length-append, take-append, drop-append, All, All-append, get_elem?, All-get_elem?, Listed,
}
use repotraverse.Ir.{
  ElementSnapshot, EvidenceBundle, LineageAssertion, LineageRelation, TransitionFact,
  TransitionResult, lines,
}
use repotraverse.Lineage.Trace.{Progress, trace_facts}

infixl 5 ◌>>=◌
abbrev ◌>>=◌ {ℓ κ} : {A : Type ℓ} {B : Type κ} → Option A → (A → Option B) → Option B
none >>= f = none
some a >>= f = f a

-- `std::string::operator<`.
unfoldable pub text_lt : Bytes → Bytes → Bool
text_lt [] [] = false
text_lt [] (y ∷ ys) = true
text_lt (x ∷ xs) [] = false
text_lt (x ∷ xs) (y ∷ ys) = ltb x y || (x == y && text_lt xs ys)

-- `std::binary_search` of a sorted list: the first text that is not smaller decides.
binary_search : List Bytes → Bytes → Bool
binary_search [] id = false
binary_search (x ∷ xs) id = if text_lt x id then binary_search xs id else not (text_lt id x)

references : ElementSnapshot → ElementSnapshot → Bool
references element target = binary_search element.referenced_compiler_ids target.compiler_id

-- `before_elements.at(id)`: the map keeps the first element of an identity.
element_at : Bytes → List ElementSnapshot → Option ElementSnapshot
element_at id [] = none
element_at id (e ∷ es) = if text_eq e.compiler_id id then some e else element_at id es

collect_added : List ElementSnapshot → List TransitionFact → Option (List ElementSnapshot)
collect_added after [] = some []
collect_added after (f ∷ fs) =
    if is_empty f.before_element && not (is_empty f.after_element)
    then (do e ← element_at f.after_element after; es ← collect_added after fs; some (e ∷ es))
    else collect_added after fs

collect_removed : List ElementSnapshot → List TransitionFact → Option (List ElementSnapshot)
collect_removed before [] = some []
collect_removed before (f ∷ fs) =
    if not (is_empty f.before_element) && is_empty f.after_element
    then (do e ← element_at f.before_element before; es ← collect_removed before fs; some (e ∷ es))
    else collect_removed before fs

-- Insertion sort by a strict order, stable.
module _ {A : Type 0} (less : A → A → Bool) where
  insert_sorted : A → List A → List A
  insert_sorted x [] = x ∷ []
  insert_sorted x (y ∷ ys) = if less y x then y ∷ insert_sorted x ys else x ∷ y ∷ ys

  pub sort : List A → List A
  sort [] = []
  sort (x ∷ xs) = insert_sorted x (sort xs)

-- `std::unique`, of relations with the same identity: the first of each run stays.
skip_run : LineageRelation → List LineageRelation → List LineageRelation
skip_run kept [] = []
skip_run kept (r ∷ rest) =
    let drop = skip_run kept rest in
    let keep = r ∷ skip_run r rest in if text_eq kept.relation_id r.relation_id then drop else keep

unique : List LineageRelation → List LineageRelation
unfolding skip_run
unique [] = []
unique (r ∷ rest) = r ∷ skip_run r rest

module _ (stable_hash : Bytes → Bytes) (dump : List Bytes → Bytes) where
  relation : Bytes → List Bytes → List Bytes → List Bytes → LineageRelation
  relation kind sources targets evidence = record {
    relation_id = stable_hash (lines (kind ∷ dump sources ∷ dump targets ∷ []));
    repository_id = [];
    kind = kind;
    source_element_ids = sources;
    target_element_ids = targets;
    evidence = evidence;
    confidence_tenths = 8;
    review_state = codes "candidate";
    author = [];
    reviewer = [];
  }

  extracts : ElementSnapshot → ElementSnapshot → List ElementSnapshot → List LineageRelation
  extracts old new [] = []
  extracts old new (added ∷ rest) =
      let more = extracts old new rest in
      if references new added && not (references old added)
      then relation (codes "extract") (old.compiler_id ∷ [])
          (new.compiler_id ∷ added.compiler_id ∷ [])
          (codes "new_dependency_from_surviving_element"
            ∷ codes "new_target_added_in_transition"
            ∷ [])
        ∷ more
      else more

  inlines : ElementSnapshot → ElementSnapshot → List ElementSnapshot → List LineageRelation
  inlines old new [] = []
  inlines old new (removed ∷ rest) =
      let more = inlines old new rest in
      if references old removed && not (references new removed)
      then relation (codes "inline") (old.compiler_id ∷ removed.compiler_id ∷ [])
          (new.compiler_id ∷ [])
          (codes "removed_dependency_from_surviving_element"
            ∷ codes "dependency_target_removed_in_transition"
            ∷ [])
        ∷ more
      else more

  relate :
      List ElementSnapshot
      → List ElementSnapshot
      → List ElementSnapshot
      → List ElementSnapshot
      → List TransitionFact
      → Option (List LineageRelation)
  relate before after added removed [] = some []
  relate before after added removed (f ∷ fs) =
      if is_empty f.before_element || is_empty f.after_element
      then relate before after added removed fs
      else (do
        old ← element_at f.before_element before
        new ← element_at f.after_element after
        rest ← relate before after added removed fs
        some (extracts old new added ++ (inlines old new removed ++ rest)))

  -- `std::tie(a.historical_element_id, a.continuity) < std::tie(...)`.
  fact_less : TransitionFact → TransitionFact → Bool
  fact_less a b =
      text_lt a.historical_element_id b.historical_element_id
      || (not (text_lt b.historical_element_id a.historical_element_id)
          && text_lt a.continuity b.continuity)

  result_of : EvidenceBundle → EvidenceBundle → Progress → List LineageRelation → TransitionResult
  result_of before after p relations = record {
    before_revision = before.source_revision;
    after_revision = after.source_revision;
    configuration = after.configuration;
    coverage = p.coverage;
    candidates = p.candidates;
    relation_candidates = unique (sort (λ a b. text_lt a.relation_id b.relation_id) relations);
    reviewed_relations = [];
    facts = sort fact_less p.facts;
  }

  pub trace_transition :
      EvidenceBundle → EvidenceBundle → List LineageAssertion → Bytes → Option TransitionResult
  trace_transition before after assertions unit = do
    let p = trace_facts stable_hash unit before after assertions
    added ← collect_added after.elements p.facts
    removed ← collect_removed before.elements p.facts
    relations ← relate before.elements after.elements added removed p.facts
    some (result_of before after p relations)
