-- ===== src/FileWorker/Types.antt =====
-- src/fileWorker.cpp, `loadEvents`: the types of the events that it loads.
use mathlib.Core.List.{Mem, mem-cons}
use mathlib.Core.List.Perm
use mathlib.Core.Logic.Or
use mathlib.Core.HLevel.{¬_prop}
use mathlib.Core.Option.{some-injective}
use mimic_generator.Common.{
  ℕ, ◌≡◌, ◌≢◌, sym, ap, ◌∙◌, true, false, some, List, if◌then◌else◌, get_elem?, ◌>>=◌, Bool-cases,
  inl, inr,
}
use mimic_generator.Common.Int.{pos}
use mimic_generator.Common.Maps.{Text, text_eq, text_eq_iff}
use mimic_generator.Event.{Event, send, recv}
use mimic_generator.EventHeap.{compare_events}
use mimic_generator.EventHeap
use mimic_generator.EventHeap.Contract.{JobHeap}
use mimic_generator.Common.{bind-some}
use mimic_generator.FileWorker.Events.{
  Numbers, FileWorker, is_text_in, is_my_ip, send_text, event_of, add_row_event, load_events_up_to,
}
use mimic_generator.FileWorker.Keeps.{load_events-keeps}

module _ {J : JobHeap compare_events} where
  -- No event of the heap is a SEND, and the text SEND is not one of the IP addresses.
  pub record NoSend (w : FileWorker J) : Type 0 where
    pub held : (x : Event) → Mem x (J.contents w.short_term_heap) → x.type ≢ send
    pub ips : is_my_ip w send_text ≡ false

  -- The same heap and the same addresses.
  NoSend-same :
      (w w' : FileWorker J)
      → w'.short_term_heap ≡ w.short_term_heap
      → w'.my_ips ≡ w.my_ips
      → NoSend w
      → NoSend w'
  NoSend-same w w' heap ips n = record {
    held = λ x m. n.held x (rw (sym heap) m);
    ips = rw ips n.ips;
  }

  add_row_event-NoSend :
      (e : Event) (w : FileWorker J) → e.type ≢ send → NoSend w → NoSend (add_row_event e w)
  unfolding EventHeap.add_event
  add_row_event-NoSend e w ne n = record {
    held = λ x m.
        Or.elim ¬_prop (mem-cons.0 ((Perm.mem_iff (J.contents-push w.short_term_heap e)).0 m))
          (λ same t. ne (rw (sym same) t)) (n.held x);
    ips = n.ips;
  }

other_text :
    (t u : Text) (ts : List Text)
    → is_text_in t ts ≡ true
    → is_text_in u ts ≡ false
    → text_eq t u ≡ false
other_text t u ts e e' = elim (Bool-cases (text_eq t u)) [
  | inl same ↦
      absurd (let e'' = ap (λ x. is_text_in x ts) (sym ((text_eq_iff t u).0 same)) ∙ e in cc)
  | inr other ↦ other
]

module _ (numbers : Numbers) {J : JobHeap compare_events} where
  type_of :
      (row : List Text) (w : FileWorker J) (e : Event)
      → event_of numbers row w ≡ some e
      → (ip : Text) × (get_elem? row 3 ≡ some ip)
        × ((if text_eq ip send_text then send else recv) ≡ e.type)
  unfolding event_of
  type_of row w e at =
      let (conn_id, a₁, e₁) = bind-some (get_elem? row 1 >>= numbers.stol) _ e at in
      let (event_id, a₂, e₂) = bind-some (get_elem? row 2 >>= numbers.stol) _ e e₁ in
      let (value, a₃, e₃) = bind-some (get_elem? row 5 >>= numbers.stoi) _ e e₂ in
      let (last, a₄, e₄) =
        bind-some (get_elem? row 6 >>= (λ t. numbers.milliseconds t (pos 0))) _ e e₃ in
      let (start, a₅, e₅) =
        bind-some (get_elem? row 7 >>= (λ t. numbers.milliseconds t (pos 0))) _ e e₄ in
      let (ip, a₆, e₆) = bind-some (get_elem? row 3) _ e e₅ in
      (ip, a₆, ap (λ x. x.type) (some-injective _ e e₆))

  row_event-NoSend :
      (row : List Text) (w : FileWorker J) (e : Event) (ip : Text)
      → event_of numbers row w ≡ some e
      → get_elem? row 3 ≡ some ip
      → is_my_ip w ip ≡ true
      → NoSend w
      → NoSend (add_row_event e w)
  row_event-NoSend row w e ip at third mine n =
      let (ip', third', type) = type_of row w e at in
      let same : ip' ≡ ip = some-injective ip' ip (sym third' ∙ third) in
      let other = other_text ip send_text w.my_ips mine n.ips in
      let recvs : recv ≡ e.type =
        ap (λ b. if b then send else recv) (sym other)
        ∙ ap (λ t. if text_eq t send_text then send else recv) (sym same)
        ∙ type in
      add_row_event-NoSend e w (λ s. cc) n

  -- `loadEvents` loads no SEND event: if the heap holds none, and no IP address is the text SEND,
  -- then the heap holds none afterwards.
  pub load_events-NoSend :
      (to_get k : ℕ) (w w' : FileWorker J)
      → load_events_up_to numbers to_get k w ≡ some w'
      → NoSend w
      → NoSend w'
  load_events-NoSend =
      load_events-keeps numbers NoSend (λ w w' heap ips ids conns out. NoSend-same w w' heap ips)
        row_event-NoSend
