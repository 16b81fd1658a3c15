-- ===== src/Memory/Journal/Agreement.antt =====
-- The report of VerifyIntegrity after any sequence of calls (internal/memory/journal.go).
use mnemosyne_os.Base.{ℕ, String, true, ◌≡◌, refl, ap, List, [], ◌∷◌, arith, str_dec, All}
use mnemosyne_os.Base.Assoc.Keys
use mnemosyne_os.Base.Float.{Float64}
use mnemosyne_os.Memory.{Graph, Store, CreateCardRequest, UpdateCardRequest, CreateEdgeRequest}
use mnemosyne_os.Memory.Cards.{new_store, create_card, update_card, touch_card, create_edge}
use mnemosyne_os.Memory.Governance.{GovernanceOptions, decay_and_compact}
use mnemosyne_os.Memory.Governance.Laws.{decay_and_compact-IsSound}
use mnemosyne_os.Memory.Chains.{IsChained}
use mnemosyne_os.Memory.Consolidation.{ConsolidateRequest, promote_candidates}
use mnemosyne_os.Memory.Consolidation.Sound.{promote_candidates-IsSound}
use mnemosyne_os.Memory.Journal.{
  replay, missing_keys, mismatched_keys, compare_graphs, all_well, verify_integrity,
}
use mnemosyne_os.Memory.Journal.Recovery.{
  IsSound, create_card-IsSound, update_card-IsSound, touch_card-IsSound, create_edge-IsSound,
}

missing_keys_of_found :
    {A : Type 0} (m l : List (String × A)) → All (Keys.Finds str_dec l) m → missing_keys m l ≡ []
unfolding missing_keys
missing_keys_of_found [] l h = refl
missing_keys_of_found ((k, v) ∷ m) l h = ground (arith, h.0, missing_keys_of_found m l h.1)

mismatched_keys_of_found :
    {A : Type 0} (m l : List (String × List A))
    → All (Keys.Finds str_dec l) m
    → mismatched_keys m l ≡ []
unfolding mismatched_keys
mismatched_keys_of_found [] l h = refl
mismatched_keys_of_found ((k, v) ∷ m) l h = ground (arith, h.0, mismatched_keys_of_found m l h.1)

module _ {Num : Type 0} where
  compare_graphs_same :
      (g : Graph Num)
      → Keys.Distinct g.cards
      → Keys.Distinct g.edges
      → compare_graphs g g ≡ all_well
  unfolding compare_graphs
  compare_graphs_same g c e =
      let cards = Keys.All-Finds str_dec g.cards c in
      let edges = Keys.All-Finds str_dec g.edges e in
      ground (
        arith,
        missing_keys_of_found g.cards g.cards cards,
        mismatched_keys_of_found g.cards g.cards cards,
        missing_keys_of_found g.edges g.edges edges,
      )

  pub verify_integrity_of_sound : (s : Store Num) → IsSound s → verify_integrity s ≡ all_well
  unfolding verify_integrity
  verify_integrity_of_sound s h = ground (
    arith,
    h.calm.has_directory,
    h.mirrored,
    ap (compare_graphs s.graph) h.mirrored,
    compare_graphs_same s.graph h.keyed h.edges_keyed,
  )

-- A call, with its arguments.
pub data Call (Num : Type 0) : Type 0 where
  creating : CreateCardRequest Num → Call Num
  updating : String → UpdateCardRequest Num → Call Num
  touching : String → (activation_delta confidence_delta : Num) → Call Num
  linking : CreateEdgeRequest Num → Call Num
  governing : (order : List String) → GovernanceOptions Num → Call Num
  consolidating : (order : List String) → ConsolidateRequest → Call Num

-- A store on an empty directory, of which no write will be refused.
abbrev pub opened : {Num : Type 0} → Store Num
opened = record new_store { persistent = true }

opened-IsSound : {Num : Type 0} → IsSound (opened {Num = Num})
unfolding replay
opened-IsSound = record {
  calm = record { has_directory = refl; unrefused = refl };
  chained = tt;
  keyed = tt;
  edges_keyed = tt;
  mirrored = refl;
}

module _ {Num : Type 0} (F : Float64 Num) where
  unfoldable pub perform : ℕ → Call Num → Store Num → Store Num
  perform now (creating req) s = (create_card F now req s).1
  perform now (updating id req) s = (update_card F now id req s).1
  perform now (touching id a c) s = (touch_card F now id a c s).1
  perform now (linking req) s = (create_edge now req s).1
  perform now (governing order opts) s = (decay_and_compact F now order opts s).2
  perform now (consolidating order req) s = (promote_candidates F now order req s).2

  unfoldable pub run : List (ℕ × Call Num) → Store Num → Store Num
  unfolding perform
  run [] s = s
  run ((now, c) ∷ cs) s = run cs (perform now c s)

  -- Every call keeps the journal in agreement with the maps, and keeps the versions a chain.
  pub perform-IsSound :
      (now : ℕ) (c : Call Num) (s : Store Num) → IsSound s → IsSound (perform now c s)
  unfolding perform
  perform-IsSound now (creating req) s h = create_card-IsSound F now req s h
  perform-IsSound now (updating id req) s h = update_card-IsSound F now id req s h
  perform-IsSound now (touching id a c) s h = touch_card-IsSound F now id a c s h
  perform-IsSound now (linking req) s h = create_edge-IsSound now req s h
  perform-IsSound now (governing order opts) s h = decay_and_compact-IsSound F now order opts s h
  perform-IsSound now (consolidating order req) s h = promote_candidates-IsSound F now order req s h

  pub run-IsSound : (cs : List (ℕ × Call Num)) (s : Store Num) → IsSound s → IsSound (run cs s)
  unfolding run
  run-IsSound [] s h = h
  run-IsSound ((now, c) ∷ cs) s h = run-IsSound cs (perform now c s) (perform-IsSound now c s h)

  -- After any calls on a store whose writes all succeed, the journal replays to exactly the maps
  -- of the store, the integrity check finds nothing, and the versions of every card form a chain.
  pub verify_integrity-run :
      (cs : List (ℕ × Call Num))
      → (replay (run cs opened).journal ≡ (run cs opened).graph)
        × (verify_integrity (run cs opened) ≡ all_well)
        × IsChained (run cs opened).graph
  verify_integrity-run cs =
      let sound = run-IsSound cs opened opened-IsSound in
      (sound.mirrored, verify_integrity_of_sound (run cs opened) sound, sound.chained)
