-- ===== src/EventHandler/Rounds.antt =====
-- src/eventHandler.cpp, `loop`: what the parts of a round keep, the round keeps.
use mimic_generator.Common.{
  ℕ, zero, suc, ◌≡◌, refl, Bool, true, false, ◌&&◌, Option, none, some, if◌then◌else◌, bind-some,
}
use mathlib.Core.Path.{subst}
use mathlib.Core.Option.{some-injective}
use mimic_generator.Common.Int.{ℤ, pos, ◌-ℤ◌, to_int, ltb_ℤ, leb_ℤ}
use mimic_generator.Event.{Event}
use mimic_generator.EventHeap.{compare_events, next_event}
use mimic_generator.EventHeap.Contract.{JobHeap}
use mimic_generator.EventQueue.Spec.{Fifo, pop, next_time}
use mimic_generator.Os.{Os, History, PollEvent}
use mimic_generator.Connections.{Inet}
use mimic_generator.EventHandler.{Handler}
use mimic_generator.EventHandler.Dispatch.{dispatch, check_deferred, accept_new_connection}
use mimic_generator.EventHandler.Loop.{
  count_file_event, file_events, wake_file_worker, poll_connections, poll_round, loop_round,
}
use mimic_generator.PollHandler.{PollHandler, Next, no_more, overrun, handed, wait_for_events}
use mimic_generator.PollHandler

module _ (os : Os) {J : JobHeap compare_events} (P : Handler J → Type 0)
    (heap : (h : Handler J) (w : J.Heap) → P h → P (record h { wait_heap = w }))
    (dispatches : (job : Event) (now : ℤ) (h : Handler J) → P h → P (dispatch os job now h)) where
  pub check_deferred-keeps :
      (k : ℕ) (now : ℤ) (h h' : Handler J) → check_deferred os k now h ≡ some h' → P h → P h'
  unfolding check_deferred
  check_deferred-keeps zero now h h' e p = absurd (cc)
  check_deferred-keeps (suc k) now h h' e p =
      by_event (next_event J h.wait_heap) (λ g. check_deferred-keeps k now g h') e
    where
      by_event :
          (r : J.Heap × Option Event)
          → ((g : Handler J) → check_deferred os k now g ≡ some h' → P g → P h')
          → (elim r.1 [
            | none ↦ some (record h { wait_heap = r.0 })
            | some job ↦
                check_deferred os k now (dispatch os job now (record h { wait_heap = r.0 }))
          ])
            ≡ some h'
          → P h'
      by_event (w, none) ih e = subst P (some-injective _ _ e) (heap h w p)
      by_event (w, some job) ih e =
          let h₀ = record h { wait_heap = w } in
          ih (dispatch os job now h₀) e (dispatches job now h₀ (heap h w p))

module _ (os : Os) (inet : Inet) {J : JobHeap compare_events} (P : Handler J → Type 0)
    (hands : (p q : PollHandler) (e : PollEvent) (calls : History) (h : Handler J)
      → PollHandler.next_event os p h.calls ≡ handed e q calls
      → P h
      → P (record h { calls = calls }))
    (accepts : (fd now : ℤ) (h : Handler J)
      → P h
      → P (accept_new_connection os inet fd now h).0) where
  pub poll_connections-keeps :
      (k : ℕ) (now : ℤ) (p : PollHandler) (h : Handler J) (q : PollHandler) (h' : Handler J)
      → poll_connections os inet k now p h ≡ some (q, h')
      → P h
      → P h'
  unfolding poll_connections
  poll_connections-keeps zero now p h q h' e r = absurd (cc)
  poll_connections-keeps (suc k) now p h q h' e r =
      by_next (PollHandler.next_event os p h.calls) (λ q₁ g. poll_connections-keeps k now q₁ g q h')
        (λ x q₁ calls at. hands p q₁ x calls h at r) e
    where
      by_next :
          (n : Next)
          → ((q₁ : PollHandler) (g : Handler J)
              → poll_connections os inet k now q₁ g ≡ some (q, h')
              → P g
              → P h')
          → ((x : PollEvent) (q₁ : PollHandler) (calls : History)
              → n ≡ handed x q₁ calls
              → P (record h { calls = calls }))
          → (elim n as (λ _. Option (PollHandler × Handler J)) [
            | no_more ↦ some (p, h)
            | overrun ↦ none
            | handed x q calls ↦
                poll_connections os inet k now q
                  (accept_new_connection os inet x.fd now (record h { calls = calls })).0
          ])
            ≡ some (q, h')
          → P h'
      by_next no_more ih next e =
          subst (λ (x : PollHandler × Handler J). P x.1) (some-injective _ _ e) r
      by_next overrun ih next e = absurd (cc)
      by_next (handed x q₁ calls) ih next e =
          let h₁ = record h { calls = calls } in
          ih q₁ (accept_new_connection os inet x.fd now h₁).0 e
            (accepts x.fd now h₁ (next x q₁ calls refl))

module _ (os : Os) (inet : Inet) {J : JobHeap compare_events} where
  -- What a round is made of keeps `P`.
  pub record Keeps (P : Handler J → Type 0) : Type 0 where
    pub queue : (h : Handler J) (q : Fifo) → P h → P (record h { incoming_file_events = q })
    pub heap : (h : Handler J) (w : J.Heap) → P h → P (record h { wait_heap = w })
    pub counts : (h : Handler J) → P h → P (count_file_event os h)
    pub wakes : (h : Handler J) → P h → P (wake_file_worker h)
    pub dispatches : (job : Event) (now : ℤ) (h : Handler J) → P h → P (dispatch os job now h)
    pub waits :
        (timeout : ℤ) (p : PollHandler) (h : Handler J)
        → P h
        → P (record h { calls = (wait_for_events os timeout p h.calls).1 })
    pub hands :
        (p q : PollHandler) (e : PollEvent) (calls : History) (h : Handler J)
        → PollHandler.next_event os p h.calls ≡ handed e q calls
        → P h
        → P (record h { calls = calls })
    pub accepts : (fd now : ℤ) (h : Handler J) → P h → P (accept_new_connection os inet fd now h).0

  module _ {P : Handler J → Type 0} (keeps : Keeps P) where
    file_events-keeps :
        (k : ℕ) (next now : ℤ) (h : Handler J) (next' : ℤ) (h' : Handler J)
        → file_events os k next now h ≡ some (next', h')
        → P h
        → P h'
    unfolding file_events
    file_events-keeps zero next now h next' h' e p = absurd (cc)
    file_events-keeps (suc k) next now h next' h' e p =
        by_job (leb_ℤ next now && leb_ℤ (pos 0) next) (pop h.incoming_file_events)
          (λ m g. file_events-keeps k m now g next' h') e
      where
        by_job :
            (due : Bool) (r : Fifo × Option Event)
            → ((m : ℤ) (g : Handler J) → file_events os k m now g ≡ some (next', h') → P g → P h')
            → (let rest : Option (ℤ × Handler J) = elim r.1 [
              | some e ↦
                  let g =
                    dispatch os e now
                      (count_file_event os (record h { incoming_file_events = r.0 })) in
                  file_events os k (next_time g.incoming_file_events) now g
              | none ↦ file_events os k next now h
            ] in
                if due then rest else some (next, h))
              ≡ some (next', h')
            → P h'
        by_job false r ih e = subst (λ (x : ℤ × Handler J). P x.1) (some-injective _ _ e) p
        by_job true (q, none) ih e = ih next h e p
        by_job true (q, some job) ih e =
            let h₀ = record h { incoming_file_events = q } in
            let h₁ = count_file_event os h₀ in
            ih (next_time (dispatch os job now h₁).incoming_file_events) (dispatch os job now h₁) e
              (keeps.dispatches job now h₁ (keeps.counts h₀ (keeps.queue h q p)))

    poll_round-keeps :
        (k : ℕ) (next now : ℤ) (p : PollHandler) (h : Handler J) (r : ℤ × PollHandler × Handler J)
        → poll_round os inet k next now p h ≡ some r
        → P h
        → P r.2
    unfolding poll_round
    poll_round-keeps k next now p h r e held =
        let next' = if ltb_ℤ next (pos 0) then next_time h.incoming_file_events else next in
        let timeout = if ltb_ℤ (pos 0) (next' -ℤ now) then to_int (next' -ℤ now) else pos 0 in
        let (q, calls) = wait_for_events os timeout p h.calls in
        let h₁ = record h { calls = calls } in
        let ((p₂, h₂), at, e') = bind-some (poll_connections os inet k now q h₁) _ r e in
        subst (λ (x : ℤ × PollHandler × Handler J). P x.2) (some-injective _ _ e')
          (poll_connections-keeps os inet P keeps.hands keeps.accepts k now q h₁ p₂ h₂ at
            (keeps.waits timeout p h held))

    pub loop_round-keeps :
        (k : ℕ) (next now later : ℤ) (p : PollHandler) (h : Handler J) (next' : ℤ)
        → (p' : PollHandler) (h' : Handler J)
        → loop_round os inet k next now later p h ≡ some (next', p', h')
        → P h
        → P h'
    unfolding loop_round
    loop_round-keeps k next now later p h next' p' h' e held =
        let ((t, h₁), at₁, e₁) = bind-some (file_events os k next now h) _ (next', p', h') e in
        let h₂ = wake_file_worker h₁ in
        let (h₃, at₂, e₂) = bind-some (check_deferred os k later h₂) _ (next', p', h') e₁ in
        poll_round-keeps k t later p h₃ (next', p', h') e₂
          (check_deferred-keeps os P keeps.heap keeps.dispatches k later h₂ h₃ at₂
            (keeps.wakes h₁ (file_events-keeps k next now h t h₁ at₁ held)))
