-- ===== src/Engine/Fencing.antt =====
-- What a fencing token (a worker and a generation) is good for.
use multiverse_research.Prelude.{
  ℕ, ◌≡◌, ◌≢◌, refl, String, true, Option, none, some, List, arith, ◌<◌, ◌⊎◌, inl, inr,
  Option-cases, sym, subst, nat_eq, string_eq, ◌∙◌, some-inj,
}
use multiverse_research.Prelude.Int.{pos}
use multiverse_research.Prelude.Value.{Value, int}
use multiverse_research.Prelude.Table.{select}
use multiverse_research.Engine.States.{
  TaskState, Result, ok, err, IsErr, unbind, unguard, validated_generation,
}
use multiverse_research.Engine.Store.{
  Task, Db, Change, row_id, or_key_error, holds_token, check_fence, transition, renew_lease,
  assert_unexpired_fence, or_no_fence,
}
use multiverse_research.Engine.Lease.{check_fence-eq-ok, or_key_error-eq-ok}
use multiverse_research.Engine.Calls.{Call, run}
use multiverse_research.Engine.Invariant.{Inv}
use multiverse_research.Engine.Machine.{
  Moves, run-refines-Moves, Moves-generation-le, Moves-KeepsOwner,
}

validated_generation-eq : (g n : ℕ) → validated_generation (int (pos g)) ≡ ok n → n ≡ g
unfolding validated_generation
validated_generation-eq g n h = ground arith

token_generation :
    (r : Task) (worker : String) (n : ℕ) → holds_token r worker n ≡ true → r.claim_generation ≡ n
token_generation r worker n h = ground arith

fence_of :
    (o : Option (Value × Value)) (t : Value × Value) (worker generation : Value)
    → o ≡ some (worker, generation)
    → or_no_fence o ≡ ok t
    → t.1 ≡ generation
fence_of none t worker generation e h = cc
fence_of (some f) t worker generation e h = cc

-- An operation raises if its steps cannot all succeed.
raises {ℓ} : {A : Type ℓ} (m : Result A) → ((a : A) → m ≡ ok a → ⊥) → IsErr m
raises (ok a) k = k a refl
raises (err e) k = tt

-- The row of a task has another generation than g.
abbrev pub IsStale : String → ℕ → Db → Type 0
IsStale tid g db = (r : Task) → select row_id tid db.tasks ≡ some r → g ≢ r.claim_generation

module _ (tid : String) (g : ℕ) (now : ℕ) (db : Db) (stale : IsStale tid g db) where
  fenced_out :
      (r : Task) (worker : String) (n : ℕ) {u : Unit {0}}
      → or_key_error (select row_id tid db.tasks) tid ≡ ok r
      → validated_generation (int (pos g)) ≡ ok n
      → check_fence r worker n now ≡ ok u
      → ⊥
  fenced_out r worker n row gen fence =
      stale r (or_key_error-eq-ok tid (select row_id tid db.tasks) row)
        (sym (validated_generation-eq g n gen) ∙ sym (token_generation r worker n held))
    where
      held : holds_token r worker n ≡ true
      held = (check_fence-eq-ok r worker n now fence).0

  transition-stale :
      (s : TaskState) (c : Change) (worker : Value)
      → c.fencing ≡ some (worker, int (pos g))
      → IsErr (transition tid s c now db)
  unfolding transition
  transition-stale s c worker token = raises _ λ a h. unbind _ _ h λ r row h. unguard _ _ _ h λ _ h.
      unguard _ _ _ h λ _ h. unbind _ _ h λ t tok h. unbind _ _ h λ w _ h. unbind _ _ h λ n gen h.
        unbind _ _ h λ u fence h.
          fenced_out r w n row
            (subst (λ x. validated_generation x ≡ ok n) (fence_of c.fencing t worker _ token tok)
              gen)
            fence

  renew_lease-stale :
      (worker term : Value) → IsErr (renew_lease tid worker (int (pos g)) term now db)
  unfolding renew_lease
  renew_lease-stale worker term = raises _ λ a h. unbind _ _ h λ w _ h. unbind _ _ h λ n gen h.
      unbind _ _ h λ _ _ h.
        unbind _ _ h
          λ r row h. unguard _ _ _ h λ _ h. unbind _ _ h λ u fence h. fenced_out r w n row gen fence

  assert_unexpired_fence-stale :
      (worker : Value) → IsErr (assert_unexpired_fence tid worker (int (pos g)) now db)
  unfolding assert_unexpired_fence
  assert_unexpired_fence-stale worker = raises _ λ a h.
      unbind _ _ h
        λ w _ h. unbind _ _ h λ n gen h. unbind _ _ h λ r row h. fenced_out r w n row gen h

-- The generation in a task's row, 0 for a missing task.
abbrev pub generation_of : String → Db → ℕ
generation_of tid db = elim (select row_id tid db.tasks) [ none ↦ 0 | some r ↦ r.claim_generation ]

superseded-IsStale :
    (cs : List (ℕ × Call)) (db : Db) (tid : String) (g : ℕ)
    → Inv db
    → g < generation_of tid db
    → IsStale tid g (run db cs)
superseded-IsStale cs db tid g v old r' at e = elim (Option-cases (select row_id tid db.tasks)) [
  | inl missing ↦ absurd (not_below_none missing)
  | inr (r, found) ↦
      let (s, at_s, moves) = run-refines-Moves cs db tid r v found in
      let same : s ≡ r' = some-inj (sym at_s ∙ at) in
      let grown = Moves-generation-le (subst (Moves r) same moves) in
      absurd (omega (arith, generation_found r found))
]
  where
    not_below_none : select row_id tid db.tasks ≡ none → ⊥
    not_below_none missing = ground arith

    generation_found :
        (r : Task) → select row_id tid db.tasks ≡ some r → generation_of tid db ≡ r.claim_generation
    generation_found r found = ground arith

-- Once a task's generation has passed g, a token of generation g is dead: after any further history
-- of calls by anybody, a transition, a renewal or a check with that token raises, whatever worker it
-- names, whatever else is asked for and whatever the clock says.
pub superseded_token_dead :
    (cs : List (ℕ × Call)) (db : Db) (tid : String) (worker : Value) (g now : ℕ) (s : TaskState)
    (c : Change) (term : Value)
    → Inv db
    → g < generation_of tid db
    → c.fencing ≡ some (worker, int (pos g))
    → IsErr (transition tid s c now (run db cs))
      × IsErr (renew_lease tid worker (int (pos g)) term now (run db cs))
      × IsErr (assert_unexpired_fence tid worker (int (pos g)) now (run db cs))
superseded_token_dead cs db tid worker g now s c term v old token =
    let stale = superseded-IsStale cs db tid g v old in
    (
      transition-stale tid g now (run db cs) stale s c worker token,
      renew_lease-stale tid g now (run db cs) stale worker term,
      assert_unexpired_fence-stale tid g now (run db cs) stale worker,
    )

-- While a task's generation does not change, its owner can only go: over any history of calls the
-- row ends with the owner that it had or with none, so two workers never share a generation.
pub generation_has_one_owner :
    (cs : List (ℕ × Call)) (db : Db) (tid : String) (r r' : Task)
    → Inv db
    → select row_id tid db.tasks ≡ some r
    → select row_id tid (run db cs).tasks ≡ some r'
    → r'.claim_generation ≡ r.claim_generation
    → (r'.claimed_by ≡ r.claimed_by) ⊎ (r'.claimed_by ≡ none)
generation_has_one_owner cs db tid r r' v found at =
    let (s, at_s, moves) = run-refines-Moves cs db tid r v found in
    Moves-KeepsOwner (subst (Moves r) (some-inj (sym at_s ∙ at)) moves)
