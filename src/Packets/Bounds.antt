-- ===== src/Packets/Bounds.antt =====
-- A packet of internal/memoryorchestrator stays within its quota.
use mnemosyne_os.Base.{
  ℕ, zero, suc, ◌+◌, ◌≤◌, ◌<◌, ◌≡◌, refl, subst, ap, inl, inr, String, ◌&&◌, not, ltb, Bool-cases,
  Option, none, some, List, [], ◌∷◌, ◌++◌, arith, if_rule, length, length-append, length-take,
}
use mathlib.Core.Option.{some-injective}
use mnemosyne_os.Base.Float.{Float64}
use mnemosyne_os.Base.Text.{trim_space, is_blank}
use mnemosyne_os.Recall.{Setting, Hit}
use mnemosyne_os.Recall.Hits.Laws.{recall-IsHit}
use mnemosyne_os.Packets.{
  SessionView, TaskRef, RecallRef, Packet, Quota, World, clip, working_set_hits, aggregate_from,
  aggregate_recall_refs, normalize_quota, refs_of, recall_hits, task_packet, fallback, with_focus,
  build_task_packet, unless_empty, contains_task_ref, is_empty, ◌>>=◌, as_refs, working_hits,
  cue_query, semantic_sources, focus_task, dedupe_strings, working_notes,
}

module _ {A : Type 0} where
  length-clip : (n : ℕ) (xs : List A) → 0 < n → length (clip n xs) ≤ n
  unfolding clip
  length-clip zero xs h = absurd (omega arith)
  length-clip (suc n) xs h = length-take (suc n) xs

length-working_set_hits :
    (ids sources : List String) (n : ℕ) → length (working_set_hits ids sources n) ≤ n
unfolding working_set_hits
length-working_set_hits ids sources zero = omega arith
length-working_set_hits [] sources (suc n) = omega arith
length-working_set_hits (id ∷ ids) sources (suc n) = omega (arith, length-working_set_hits ids _ n)

length-aggregate_from :
    (seen : List String) (rs : List RecallRef) → length (aggregate_from seen rs) ≤ length rs
unfolding aggregate_from
length-aggregate_from seen [] = omega arith
length-aggregate_from seen (r ∷ rs) =
    ground
      (arith, length-aggregate_from (trim_space r.card_id ∷ seen) rs, length-aggregate_from seen rs)

length-refs_of : {Num : Type 0} (hs : List (Hit Num)) → length (refs_of hs) ≡ length hs
unfolding refs_of
length-refs_of [] = refl
length-refs_of (h ∷ hs) = omega (arith, length-refs_of hs)

-- The quota allows something of each kind.
pub record IsNormal (q : Quota) : Type 0 where
  pub tasks : 0 < q.max_recent_tasks
  pub notes : 0 < q.max_working_notes
  pub procedures : 0 < q.max_procedure_hits
  pub semantics : 0 < q.max_semantic_hits
  pub working : 0 < q.max_working_recall_hits
  pub fallback_hits : 0 < q.max_fallback_recall_hits

pub normalize_quota-IsNormal : (q : Quota) → IsNormal (normalize_quota q)
unfolding normalize_quota
normalize_quota-IsNormal q = record {
  tasks = ground arith;
  notes = ground arith;
  procedures = ground arith;
  semantics = ground arith;
  working = ground arith;
  fallback_hits = ground arith;
}

pub record IsWithin (q : Quota) (p : Packet) : Type 0 where
  pub tasks : length p.recent_tasks ≤ q.max_recent_tasks
  pub notes : length p.working_notes ≤ q.max_working_notes
  pub procedures : length p.procedure_hits ≤ q.max_procedure_hits
  pub semantics : length p.semantic_hits ≤ q.max_semantic_hits
  pub hits :
      length p.recall_hits
      ≤ q.max_procedure_hits + q.max_semantic_hits + q.max_working_recall_hits
        + q.max_fallback_recall_hits

>>=-eq-some :
    {A B : Type 0} (m : Option A) (f : A → Option B) {b : B}
    → (m >>= f) ≡ some b
    → (a : A) × (m ≡ some a) × (f a ≡ some b)
>>=-eq-some none f e = absurd (cc)
>>=-eq-some (some a) f e = (a, refl, e)

none-ne-some : {A : Type 0} (a : A) → ◌≡◌ {A = Option A} none (some a) → ⊥
none-ne-some a e = cc

unless_empty-eq-some : (p : Packet) {r : Packet} → unless_empty p ≡ some r → p ≡ r
unless_empty-eq-some p e = elim (Bool-cases (is_empty p)) [
  | inl t ↦ absurd (none-ne-some _ (rw t at e))
  | inr f ↦ some-injective _ _ (rw f at e)
]

-- At most so many, where there was no panic.
Short : ℕ → Option (List RecallRef) → Type 0
Short n none = Unit
Short n (some rs) = length rs ≤ n

length-Short :
    {n : ℕ} {o : Option (List RecallRef)} {rs : List RecallRef}
    → o ≡ some rs
    → Short n o
    → length rs ≤ n
unfolding Short
length-Short {n} e h = unfold Short in subst (Short n) e h

as_refs-Short :
    {Num : Type 0} (n : ℕ) (o : Option (List (Hit Num)))
    → ((hits : List (Hit Num)) → o ≡ some hits → length hits ≤ n)
    → Short n (as_refs o)
unfolding Short
as_refs-Short n none h = tt
as_refs-Short n (some hits) h = rw (length-refs_of hits) (h hits refl)

module _ {Num : Type 0} (F : Float64 Num) (st : Setting) (w : World Num) (q : Quota) where
  recall_hits-Short :
      (query : String) (sources : List String) (n : ℕ)
      → Short n (recall_hits F st w q query sources n)
  unfolding recall_hits Short
  recall_hits-Short query sources zero = omega arith
  recall_hits-Short query sources (suc n) =
      if_rule (Short (suc n)) (is_blank query) (λ _. omega arith)
        (λ _. as_refs-Short (suc n) _ (λ hits e.
          (recall-IsHit F st w.order (record { query = query; sources = sources; limit = suc n })
            w.graph e).1))

  working_hits-length :
      (v : SessionView) → length (working_hits F st w q v) ≤ q.max_working_recall_hits
  working_hits-length v =
      length-working_set_hits v.working_recall_ids v.working_sources q.max_working_recall_hits

  -- The hits of a packet.
  fallback-Short :
      (cue : String) (rs : List RecallRef)
      → Short (length rs + q.max_fallback_recall_hits) (fallback F st w q cue rs)
  unfolding fallback
  fallback-Short cue [] =
      let none_yet : q.max_fallback_recall_hits ≡ 0 + q.max_fallback_recall_hits = omega arith in
      subst (λ k. Short k (recall_hits F st w q cue [] q.max_fallback_recall_hits)) none_yet
        (recall_hits-Short cue [] q.max_fallback_recall_hits)
  fallback-Short cue (r ∷ rs) = unfold Short in omega arith

  with_focus-length :
      (t : Option TaskRef) (recent : List TaskRef)
      → 0 < q.max_recent_tasks
      → length recent ≤ q.max_recent_tasks
      → length (with_focus q.max_recent_tasks t recent) ≤ q.max_recent_tasks
  with_focus-length none recent h k = k
  with_focus-length (some t) recent h k =
      if_rule (λ ts. length ts ≤ q.max_recent_tasks)
        (ltb 0 q.max_recent_tasks && not (contains_task_ref recent t.task_id))
        (λ _. length-clip q.max_recent_tasks (t ∷ recent) h) (λ _. k)

  le_sum :
      (gathered hits procedures semantics : List RecallRef) (v : SessionView)
      → length procedures ≤ q.max_procedure_hits
      → length semantics ≤ q.max_semantic_hits
      → length hits ≤ length gathered + q.max_fallback_recall_hits
      → gathered ≡ aggregate_recall_refs (procedures ∷ semantics ∷ working_hits F st w q v ∷ [])
      → length hits
        ≤ q.max_procedure_hits + q.max_semantic_hits + q.max_working_recall_hits
          + q.max_fallback_recall_hits
  unfolding aggregate_recall_refs
  le_sum gathered hits procedures semantics v a b c e =
      let all = procedures ++ (semantics ++ (working_hits F st w q v ++ [])) in
      omega (
        arith,
        ap length e,
        length-aggregate_from [] all,
        length-append procedures (semantics ++ (working_hits F st w q v ++ [])),
        length-append semantics (working_hits F st w q v ++ []),
        length-append {0} (working_hits F st w q v) [],
        working_hits-length v,
      )

  packet-IsWithin :
      (v : SessionView) (recent : List TaskRef) (procedures semantics hits : List RecallRef)
      → IsNormal q
      → length procedures ≤ q.max_procedure_hits
      → length semantics ≤ q.max_semantic_hits
      → length hits
        ≤ q.max_procedure_hits + q.max_semantic_hits + q.max_working_recall_hits
          + q.max_fallback_recall_hits
      → IsWithin q (task_packet F st w q v recent procedures semantics hits)
  unfolding task_packet
  packet-IsWithin v recent procedures semantics hits normal a b c = record {
    tasks =
        with_focus-length (focus_task v.focus_task_id w.tasks) (clip q.max_recent_tasks recent)
          normal.tasks (length-clip q.max_recent_tasks recent normal.tasks);
    notes = length-clip q.max_working_notes (dedupe_strings (working_notes v)) normal.notes;
    procedures = a;
    semantics = b;
    hits = c;
  }

  -- With a quota that allows something of each kind, a packet for a task has at most so many tasks,
  -- notes, procedures and other cards as the quota says, and at most as many hits as the quotas of
  -- all kinds together.
  pub build_task_packet-IsWithin :
      (query skill : String) (v : SessionView) (recent : List TaskRef) {p : Packet}
      → IsNormal q
      → build_task_packet F st w q query skill v recent ≡ some (some p)
      → IsWithin q p
  unfolding build_task_packet
  build_task_packet-IsWithin query skill v recent {p} normal e =
      let cue = cue_query query v in
      let (procedures, found, e1) =
        >>=-eq-some (recall_hits F st w q cue ("procedure" ∷ []) q.max_procedure_hits) _ e in
      let (semantics, found', e2) =
        >>=-eq-some (recall_hits F st w q cue (semantic_sources skill) q.max_semantic_hits) _ e1 in
      let gathered =
        aggregate_recall_refs (procedures ∷ semantics ∷ working_hits F st w q v ∷ []) in
      let (hits, found'', e3) = >>=-eq-some (fallback F st w q cue gathered) _ e2 in
      let short =
        length-Short found (recall_hits-Short cue ("procedure" ∷ []) q.max_procedure_hits) in
      let short' =
        length-Short found' (recall_hits-Short cue (semantic_sources skill) q.max_semantic_hits) in
      let short'' = length-Short found'' (fallback-Short cue gathered) in
      subst (IsWithin q)
        (unless_empty-eq-some (task_packet F st w q v recent procedures semantics hits)
          (some-injective _ _ e3))
        (packet-IsWithin v recent procedures semantics hits normal short short'
          (le_sum gathered hits procedures semantics v short short' short'' refl))
