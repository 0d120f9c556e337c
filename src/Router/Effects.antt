-- ===== src/Router/Effects.antt =====
-- The broadcasts of any calls of enforcement/router.py.
use verigate.Base.{
  refl, [], ◌∷◌, ◌++◌, true, false, ◌≡◌, ◌==◌, string_eq, nat_eq, option_eq, arith, String, Result,
  List, ◌∙◌, ℕ, count_rows, ◌+◌, ap, if◌then◌else◌, ◌≤◌, sym, count_rows-append, any-append, Bool,
  err, ok,
}
use verigate.Base.Json.{Value, Fields}
use verigate.Storage.{Storage}
use verigate.Storage.Nonces.{consume_execution_nonce}
use verigate.Enforcement.Once.{spent, spent_count}
use verigate.Router.{Envelope, ExecutionRouter}
use verigate.Router.Execute.{execute, delivery, after_nonce, execute_if}

-- A broadcast: the nonce it was made for and the request.
abbrev pub Broadcast : Type 0
Broadcast = String × Fields

module _ {W : Type 0} (broadcaster : Fields → W → Result Value × W) where
  -- the requests broadcast in order
  abbrev pub replay : List Broadcast → W → W
  replay [] w = w
  replay (b ∷ bs) w = replay bs (broadcaster b.1 w).1

  replay-append : (bs cs : List Broadcast) (w : W) → replay (bs ++ cs) w ≡ replay cs (replay bs w)
  replay-append [] cs w = refl
  replay-append (b ∷ bs) cs w = replay-append bs cs (broadcaster b.1 w).1

  abbrev pub made_for : String → List Broadcast → ℕ
  made_for nonce bs = count_rows (λ (b : Broadcast). b.0 == nonce) bs

  -- Some broadcasts lead from one world to the other, each for a nonce that it spends.
  pub record Effect (st st' : Storage × W) : Type 0 where
    pub broadcasts : List Broadcast
    pub world : st'.1 ≡ replay broadcasts st.1
    pub spending :
        (nonce : String)
        → made_for nonce broadcasts + spent_count nonce st.0 ≤ spent_count nonce st'.0

  pub Effect-none :
      (s s' : Storage) (w : W) → s'.execution_nonces ≡ s.execution_nonces → Effect (s, w) (s', w)
  unfolding spent_count spent
  Effect-none s s' w same = record {
    broadcasts = [];
    world = refl;
    spending = λ nonce. rw same (omega arith);
  }

  pub Effect-kept :
      (s s' : Storage) (w : W)
      → ((nonce : String) → spent nonce s ≡ true → spent nonce s' ≡ true)
      → Effect (s, w) (s', w)
  unfolding spent_count
  Effect-kept s s' w kept = record {
    broadcasts = [];
    world = refl;
    spending = λ nonce. ground (arith, kept nonce);
  }

  pub Effect-trans : {a b c : Storage × W} → Effect a b → Effect b c → Effect a c
  Effect-trans {a} {b} {c} e f = record {
    broadcasts = e.broadcasts ++ f.broadcasts;
    world =
        f.world
        ∙ ap (replay f.broadcasts) e.world
        ∙ sym (replay-append e.broadcasts f.broadcasts a.1);
    spending = λ nonce. omega (
      arith,
      e.spending nonce,
      f.spending nonce,
      count_rows-append (λ (x : Broadcast). x.0 == nonce) e.broadcasts f.broadcasts,
    );
  }

  -- what consuming a nonce does to the counts
  consumed :
      (nonce id intent agent : String) (now : ℕ) (s s' : Storage)
      → consume_execution_nonce nonce id intent agent now s ≡ (true, s')
      → (n : String) → (if nonce == n then 1 else 0) + spent_count n s ≤ spent_count n s'
  unfolding consume_execution_nonce spent_count spent
  consumed nonce id intent agent now s s' h n = grind (arith, any-append)

  consumed_again :
      (nonce id intent agent : String) (now : ℕ) (s s' : Storage)
      → consume_execution_nonce nonce id intent agent now s ≡ (false, s')
      → s' ≡ s
  unfolding consume_execution_nonce
  consumed_again nonce id intent agent now s s' h = ground arith

  module _ (a : Envelope) (now : ℕ) (s : Storage) (w : W) where
    abbrev consumption : Bool × Storage
    consumption =
        consume_execution_nonce a.authorization.nonce a.authorization.authorization_id
          a.authorization.intent_id a.authorization.agent_id now s

    after_nonce-Effect :
        (p : Bool × Storage) (request : Result Fields)
        → consumption ≡ p
        → Effect (s, w) (after_nonce broadcaster p request w).1
    after_nonce-Effect (false, s') request h =
        let same =
          consumed_again a.authorization.nonce a.authorization.authorization_id
            a.authorization.intent_id a.authorization.agent_id now s s' h in
        Effect-none s s' w (ap (λ (t : Storage). t.execution_nonces) same)
    after_nonce-Effect (true, s') (err e) h = record {
      broadcasts = [];
      world = refl;
      spending = λ nonce. omega (
        arith,
        consumed a.authorization.nonce a.authorization.authorization_id a.authorization.intent_id
            a.authorization.agent_id now s s' h nonce,
      );
    }
    after_nonce-Effect (true, s') (ok request) h = record {
      broadcasts = (a.authorization.nonce, request) ∷ [];
      world = refl;
      spending = λ nonce. omega (
        arith,
        consumed a.authorization.nonce a.authorization.authorization_id a.authorization.intent_id
            a.authorization.agent_id now s s' h nonce,
      );
    }

    execute_if-Effect :
        (d : Result (Result Fields)) → Effect (s, w) (execute_if broadcaster d a now (s, w)).1
    execute_if-Effect (err e) = Effect-none s s w refl
    execute_if-Effect (ok request) = after_nonce-Effect consumption request refl

  module _ (is_hexadecimal : String → Bool) (verify : Envelope → ℕ → Bool × String) where
    pub execute-Effect :
        (r : ExecutionRouter) (a : Envelope) (now : ℕ) (st : Storage × W)
        → Effect st (execute is_hexadecimal verify broadcaster r a now st).1
    unfolding execute
    execute-Effect r a now (s, w) =
        execute_if-Effect a now s w (delivery is_hexadecimal verify r a now)
