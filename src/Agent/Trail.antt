-- ===== src/Agent/Trail.antt =====
-- What a part of a run leaves behind, and the rule that follows a run from step to step.
use mathlib.Core.Path.{subst}
use mathlib.Core.List.{append_assoc, append-nil}
use mcp_business_assistant.Prelude.{
  Bool, true, false, if◌then◌else◌, ℕ, ◌+◌, ◌≤◌, String, ◌≡◌, refl, sym, ◌∙◌, ap, ◌⊎◌, inl, inr,
  Option, none, some, List, [], ◌∷◌, ◌++◌, length, All, All-append, arith, lookup, false, any,
  Bool-cases,
}
use mcp_business_assistant.Enums.{UserRole, MessageRole, read, write, is_viewer}
use mcp_business_assistant.Errors.{Result, ok, err, crash}
use mcp_business_assistant.Json.{Fields}
use mcp_business_assistant.Database.{Database, AuditEntry, record_audit}
use mcp_business_assistant.Mcp.Types.{ToolSpec, ToolCall}
use mcp_business_assistant.Security.Permissions.{classify}
use mcp_business_assistant.Conversation.Messages.{LlmToolCall}
use mcp_business_assistant.Conversation.Transcript.{
  Message, same_slot, add_message, insert_message, new_message,
}
use mcp_business_assistant.Conversation.Numbering.{IsOrdered, add_message-IsOrdered}
use mcp_business_assistant.Execution.Gateway.{Gateway}
use mcp_business_assistant.Agent.World.{
  AgentDependencies, World, Run, follow, caught, flushed, persist, audit,
}

-- How a step ends: with a value and a world, or with an error and a world.
abbrev pub Ends : {A : Type 0} → (A → World → Type 0) → (World → Type 0) → Result A × World → Type 0
Ends Q E (ok a, w) = Q a w
Ends Q E (err e, w) = E w
Ends Q E (crash, w) = E w

pub Ends-follow :
    {A B : Type 0} (P : A → World → Type 0) (Q : B → World → Type 0) (E E' : World → Type 0)
    (f : A → Run B) (x : Result A × World)
    → Ends P E x
    → ((w : World) → E w → E' w)
    → ((a : A) (w : World) → P a w → Ends Q E' (f a w))
    → Ends Q E' (follow f x)
Ends-follow P Q E E' f (ok a, w) h e k = k a w h
Ends-follow P Q E E' f (err x, w) h e k = e w h
Ends-follow P Q E E' f (crash, w) h e k = e w h

-- A property of the world that holds however a step ends.
pub Ends-always :
    {A : Type 0} (T : World → Type 0) (x : Result A × World) → T x.1 → Ends (λ a w. T w) T x
Ends-always T (ok a, w) h = h
Ends-always T (err e, w) h = h
Ends-always T (crash, w) h = h

pub Ends-caught :
    {A : Type 0} (T : World → Type 0) (x : Result A × World)
    → T x.1
    → Ends (λ a w. T w) T (caught x)
Ends-caught T (ok a, w) h = h
Ends-caught T (err e, w) h = h
Ends-caught T (crash, w) h = h

pub Ends-weaken :
    {A : Type 0} (T : World → Type 0) (x : Result A × World)
    → Ends (λ _ w. T w) T x
    → Ends (λ _ w. T w) (λ _. Unit) x
Ends-weaken T (ok a, w) h = h
Ends-weaken T (err e, w) h = tt
Ends-weaken T (crash, w) h = tt

pub Ends-map :
    {A : Type 0} {P Q : A → World → Type 0} (f : (a : A) (w : World) → P a w → Q a w)
    (x : Result A × World)
    → Ends P (λ _. Unit) x
    → Ends Q (λ _. Unit) x
Ends-map f (ok a, w) h = f a w h
Ends-map f (err e, w) h = tt
Ends-map f (crash, w) h = tt

-- What is known of a step that returned a value.
pub Ends-ok :
    {A : Type 0} (Q : A → World → Type 0) (x : Result A × World) {a : A}
    → Ends Q (λ _. Unit) x
    → x.0 ≡ ok a
    → Q a x.1
Ends-ok Q (ok b, w) {a} h e = let same : b ≡ a = cc (e) in subst (λ c. Q c w) same h
Ends-ok Q (err e, w) h returns = absurd (cc (returns))
Ends-ok Q (crash, w) h returns = absurd (cc (returns))

-- A level that needs no approval: READ, or WRITE for a caller who is not a viewer where writes need
-- none.
abbrev pub LevelMayRun : Gateway → UserRole → ToolCall → Type 0
LevelMayRun gateway role call =
    (classify call.tool_name ≡ read)
    ⊎ ((classify call.tool_name ≡ write)
        × (is_viewer role ≡ false)
        × (gateway.settings.require_approval_for_writes ≡ false))

-- A call that may run without an approval, of a tool of the catalog.
abbrev pub MayRun : Gateway → UserRole → ToolCall → Type 0
MayRun gateway role call =
    (spec : ToolSpec) × (lookup call.tool_name gateway.manager.catalog ≡ some spec)
    × LevelMayRun gateway role call

-- No other session adds turns to the transcripts meanwhile.
abbrev pub IsAlone : AgentDependencies → Type 0
IsAlone deps = (ms : List Message) → deps.arriving ms ≡ ms

-- From one world to a later one: the calls that were handed over, the turns that were added, and at
-- most so many requests to the language model. The turns are those of the run where it is alone.
pub record Trail (deps : AgentDependencies) (role : UserRole) (questions : ℕ) (w w' : World)
    : Type 0 where
  pub calls : List ToolCall
  pub sent : w'.database.dispatched ≡ w.database.dispatched ++ calls
  pub permitted : All (MayRun deps.gateway role) calls
  pub turns : List Message
  pub transcript : IsAlone deps → w'.messages ≡ w.messages ++ turns
  pub ordered : IsAlone deps → IsOrdered w.messages → IsOrdered w'.messages
  pub asked : length w'.asked ≤ length w.asked + questions
  pub status : w'.conversation_status ≡ w.conversation_status

appended :
    {A : Type 0} (xs us vs : List A) {ys zs : List A}
    → ys ≡ xs ++ us
    → zs ≡ ys ++ vs
    → zs ≡ xs ++ (us ++ vs)
appended xs us vs h k = k ∙ ap (λ l. l ++ vs) h ∙ append_assoc xs us vs

added_turn :
    (ms ms' : List Message) (c : ℕ) (author : MessageRole) (content : Option String)
    (calls : Option (List LlmToolCall)) (id name : Option String) (metadata : Option Fields)
    → add_message ms c author content calls id name metadata ms ≡ some ms'
    → ms' ≡ ms ++ new_message ms c author content calls id name metadata ∷ []
unfolding add_message insert_message
added_turn ms ms' c author content calls id name metadata h =
    let new = new_message ms c author content calls id name metadata in
    elim (Bool-cases (any (same_slot new) ms)) [
      | inl taken ↦ absurd (cc (rw taken at h))
      | inr free ↦ cc (rw free at h)
    ]

audit_quiet :
    (failing : Bool) (entry : AuditEntry) (db : Database)
    → (if failing then db else record_audit entry db).dispatched ≡ db.dispatched
unfolding record_audit
audit_quiet true entry db = refl
audit_quiet false entry db = refl

module _ {deps : AgentDependencies} {role : UserRole} where
  pub Trail-refl : (w : World) → Trail deps role 0 w w
  Trail-refl w = record {
    calls = [];
    sent = sym (append-nil _);
    permitted = tt;
    turns = [];
    transcript = λ _. sym (append-nil _);
    ordered = λ _ o. o;
    asked = omega arith;
    status = refl;
  }

  pub Trail-trans :
      {a b c : World} {m n k : ℕ}
      → Trail deps role m a b
      → Trail deps role n b c
      → m + n ≤ k
      → Trail deps role k a c
  Trail-trans s t le = record {
    calls = s.calls ++ t.calls;
    sent = appended _ s.calls t.calls s.sent t.sent;
    permitted = All-append _ s.calls t.calls s.permitted t.permitted;
    turns = s.turns ++ t.turns;
    transcript = λ alone. appended _ s.turns t.turns (s.transcript alone) (t.transcript alone);
    ordered = λ alone o. t.ordered alone (s.ordered alone o);
    asked = omega (arith, s.asked, t.asked, le);
    status = t.status ∙ s.status;
  }

  -- Fewer questions than there could be.
  pub Trail-more :
      {w w' : World} {questions : ℕ} → Trail deps role 0 w w' → Trail deps role questions w w'
  Trail-more t = record {
    calls = t.calls;
    sent = t.sent;
    permitted = t.permitted;
    turns = t.turns;
    transcript = t.transcript;
    ordered = t.ordered;
    asked = omega (arith, t.asked);
    status = t.status;
  }

  -- A step that leaves everything but the audit log and other tables alone.
  pub Trail-quiet :
      {w : World} {db : Database}
      → db.dispatched ≡ w.database.dispatched
      → Trail deps role 0 w (record w { database = db })
  Trail-quiet h = record {
    calls = [];
    sent = h ∙ sym (append-nil _);
    permitted = tt;
    turns = [];
    transcript = λ _. sym (append-nil _);
    ordered = λ _ o. o;
    asked = omega arith;
    status = refl;
  }

  pub Trail-audit :
      {w w' : World} {n : ℕ} (entry : AuditEntry)
      → Trail deps role n w w'
      → Trail deps role n w (audit entry w').1
  Trail-audit {w' = w'} entry t =
      Trail-trans t (Trail-quiet (audit_quiet w'.needs_rollback entry w'.database)) (omega arith)

  -- A turn that is added to the transcript, or fails to be.
  flushed-Trail :
      (w : World) (standing : List Message) (new : Message) (o : Option (List Message))
      → ((ms : List Message) → IsAlone deps → o ≡ some ms → ms ≡ w.messages ++ new ∷ [])
      → (IsAlone deps → IsOrdered w.messages → IsOrdered (w.messages ++ new ∷ []))
      → (IsAlone deps → standing ≡ w.messages)
      → Trail deps role 0 w (flushed standing o w).1
  flushed-Trail w standing new none turn order same = record {
    calls = [];
    sent = sym (append-nil _);
    permitted = tt;
    turns = [];
    transcript = λ alone. same alone ∙ sym (append-nil _);
    ordered = λ alone o. subst IsOrdered (sym (same alone)) o;
    asked = omega arith;
    status = refl;
  }
  flushed-Trail w standing new (some ms) turn order same = record {
    calls = [];
    sent = sym (append-nil _);
    permitted = tt;
    turns = new ∷ [];
    transcript = λ alone. turn ms alone refl;
    ordered = λ alone o. subst IsOrdered (sym (turn ms alone refl)) (order alone o);
    asked = omega arith;
    status = refl;
  }

  -- Where the run is alone, a row is numbered from the rows that stand, and written to them.
  pub persist-Trail :
      (w : World) (c : ℕ) (author : MessageRole) (content : Option String)
      (calls : Option (List LlmToolCall)) (id name : Option String) (metadata : Option Fields)
      → Trail deps role 0 w
          (persist deps
            (λ read ms. add_message read c author content calls id name metadata ms)
            w).1
  persist-Trail w c author content calls id name metadata =
      let new = new_message w.messages c author content calls id name metadata in
      let same : IsAlone deps → deps.arriving (deps.arriving w.messages) ≡ w.messages =
        λ alone. alone _ ∙ alone _ in
      let added : IsAlone deps
          → add_message (deps.arriving w.messages) c author content calls id name metadata
              (deps.arriving (deps.arriving w.messages))
            ≡ add_message w.messages c author content calls id name metadata w.messages =
        λ alone. rw (same alone, alone w.messages) refl in
      let ordered : IsOrdered w.messages
          → (add_message w.messages c author content calls id name metadata w.messages
              ≡ some (w.messages ++ new ∷ []))
            × IsOrdered (w.messages ++ new ∷ []) =
        add_message-IsOrdered w.messages c author content calls id name metadata in
      flushed-Trail w _ new _
        (λ ms alone h.
          added_turn w.messages ms c author content calls id name metadata (sym (added alone) ∙ h))
        (λ _ o. (ordered o).1) same

  -- A step that asks the model nothing, and what follows it.
  pub Trail-follow :
      {A B : Type 0} (f : A → Run B) (x : Result A × World) {w : World}
      → Trail deps role 0 w x.1
      → ((a : A) (v : World) → Trail deps role 0 v (f a v).1)
      → Trail deps role 0 w (follow f x).1
  Trail-follow f (ok a, v) t k = Trail-trans t (k a v) (omega arith)
  Trail-follow f (err e, v) t k = t
  Trail-follow f (crash, v) t k = t

  pub Trail-caught :
      {A : Type 0} (x : Result A × World) {w : World}
      → Trail deps role 0 w x.1
      → Trail deps role 0 w (caught x).1
  Trail-caught (ok a, v) t = t
  Trail-caught (err e, v) t = t
  Trail-caught (crash, v) t = t
