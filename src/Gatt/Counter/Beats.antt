-- ===== src/Gatt/Counter/Beats.antt =====
-- The counter and its text over any number of heartbeats.
use btstack_rs.Common.{
  ℕ, zero, suc, ◌+◌, ◌%◌, ◌^◌, ◌<◌, ◌≡◌, ◌∙◌, refl, sym, ap, ap₂, subst, Bool, true, false, some,
  none, List, [], ◌∷◌, if◌then◌else◌, length, take, drop, length-append, length-drop, as_u16, arith,
  Bool-cases, inl, inr,
}
use btstack_rs.Common.Index.{take-append}
use btstack_rs.Sys.{hci_event_packet, att_event_can_send_now}
use btstack_rs.Gatt.Peripheral.Btstack.{Btstack, copied}
use btstack_rs.Gatt.Counter.{
  Counter, Printer, counter_buffer_capacity, att_counter_value_handle, beat, heartbeat_handler,
  handle_event, packet_handler, att_read_callback, notify,
}

if-fst :
    {A B : Type 0} (b : Bool) (p q : A × B)
    → (if◌then◌else◌ {A = A × B} b p q).0 ≡ (if b then p.0 else q.0)
if-fst true p q = refl
if-fst false p q = refl

module _ (𝓟 : Printer) where
  -- The buffer, whose size never changes, begins with the text of the counter.
  pub record IsValid (c : Counter) : Type 0 where
    pub capacity : length c.buffer ≡ counter_buffer_capacity
    pub whole : c.len ≡ length (𝓟.print c.counter)
    pub text : take c.len c.buffer ≡ 𝓟.print c.counter
    pub word : c.counter < 2 ^ 32

  pub beat-IsValid : (c : Counter) → length c.buffer ≡ counter_buffer_capacity → IsValid (beat 𝓟 c)
  unfolding beat
  beat-IsValid c full =
      let n : ℕ = (c.counter + 1) % 2 ^ 32 in
      let t : List ℕ = 𝓟.print n in
      let len : as_u16 (length t) ≡ length t = ground (arith, 𝓟.print_fits n) in
      record {
        capacity = ground (
          arith,
          𝓟.print_fits n,
          length-append t (0 ∷ drop (length t + 1) c.buffer),
          length-drop (length t + 1) c.buffer,
        );
        whole = len;
        text = take-append t (0 ∷ drop (length t + 1) c.buffer) (as_u16 (length t)) len;
        word = omega arith;
      }

  -- `n` heartbeats.
  abbrev pub heartbeats : ℕ → Counter → Counter
  heartbeats zero c = c
  heartbeats (suc n) c = heartbeats n (heartbeat_handler 𝓟 c).0

  IsValid-if : (b : Bool) (x y : Counter) → IsValid x → IsValid y → IsValid (if b then x else y)
  IsValid-if true x y p q = p
  IsValid-if false x y p q = q

  heartbeat_handler_lem :
      (c : Counter) → (heartbeat_handler 𝓟 c).0 ≡ (if c.notification_enabled then beat 𝓟 c else c)
  unfolding heartbeat_handler
  heartbeat_handler_lem c = if-fst c.notification_enabled _ _

  heartbeat_handler-IsValid : (c : Counter) → IsValid c → IsValid (heartbeat_handler 𝓟 c).0
  heartbeat_handler-IsValid c valid =
      subst IsValid (sym (heartbeat_handler_lem c))
        (IsValid-if c.notification_enabled (beat 𝓟 c) c (beat-IsValid c valid.capacity) valid)

  heartbeats-IsValid : (n : ℕ) (c : Counter) → IsValid c → IsValid (heartbeats n c)
  heartbeats-IsValid zero c valid = valid
  heartbeats-IsValid (suc n) c valid =
      heartbeats-IsValid n (heartbeat_handler 𝓟 c).0 (heartbeat_handler-IsValid c valid)

  heartbeat_handler-counter :
      (c : Counter)
      → c.counter < 2 ^ 32
      → ((heartbeat_handler 𝓟 c).0.counter
          ≡ (if c.notification_enabled then (c.counter + 1) % 2 ^ 32 else c.counter))
        × ((heartbeat_handler 𝓟 c).0.notification_enabled ≡ c.notification_enabled)
        × ((heartbeat_handler 𝓟 c).0.connection_handle ≡ c.connection_handle)
  unfolding heartbeat_handler beat
  heartbeat_handler-counter c word = elim (Bool-cases c.notification_enabled) [
    | inl on ↦ rw on (refl, refl, refl)
    | inr off ↦ rw off (refl, refl, refl)
  ]

  heartbeats-counter :
      (n : ℕ) (c : Counter)
      → c.notification_enabled ≡ true
      → c.counter < 2 ^ 32
      → ((heartbeats n c).counter ≡ (c.counter + n) % 2 ^ 32)
        × ((heartbeats n c).notification_enabled ≡ true)
        × ((heartbeats n c).connection_handle ≡ c.connection_handle)
  heartbeats-counter zero c on word = (omega arith, on, refl)
  heartbeats-counter (suc n) c on word =
      let c' : Counter = (heartbeat_handler 𝓟 c).0 in
      let (counted, flag, handle) = heartbeat_handler-counter c word in
      let next : c'.counter ≡ (c.counter + 1) % 2 ^ 32 = counted ∙ rw on refl in
      let (later, still, same) = heartbeats-counter n c' (flag ∙ on) (omega (arith, next)) in
      (later ∙ omega (arith, next), still, same ∙ handle)

  -- While notifications are on, `n` heartbeats add `n` to the counter, modulo 2 ^ 32; the event that
  -- follows sends the text of that number to the subscriber, a read gives the part of it that is asked
  -- for, and one with a null buffer its length.
  packet_handler-heartbeats :
      (𝓑 : Btstack) (c : Counter) (n offset size : ℕ) (rest : List ℕ)
      → IsValid c
      → c.notification_enabled ≡ true
      → (packet_handler (heartbeats n c) hci_event_packet (some (att_event_can_send_now ∷ rest))
          ≡ some (
            heartbeats n c,
            notify c.connection_handle att_counter_value_handle (𝓟.print ((c.counter + n) % 2 ^ 32))
                ∷ [],
          ))
        × (att_read_callback 𝓑 (heartbeats n c) att_counter_value_handle offset (some size)
            ≡ copied (take size (drop offset (𝓟.print ((c.counter + n) % 2 ^ 32)))))
        × (att_read_callback 𝓑 (heartbeats n c) att_counter_value_handle offset none
            ≡ (length (𝓟.print ((c.counter + n) % 2 ^ 32)), []))
  packet_handler-heartbeats 𝓑 c n offset size rest valid on =
      let c' : Counter = heartbeats n c in
      let later : IsValid c' = heartbeats-IsValid n c valid in
      let (counted, _, handle) = heartbeats-counter n c on valid.word in
      let sent : take c'.len c'.buffer ≡ 𝓟.print ((c.counter + n) % 2 ^ 32) =
        later.text ∙ ap 𝓟.print counted in
      let said : c'.len ≡ length (𝓟.print ((c.counter + n) % 2 ^ 32)) =
        later.whole ∙ ap (λ k. length (𝓟.print k)) counted in
      (
        unfold packet_handler handle_event in
            ap₂ (λ h t. some (c', notify h att_counter_value_handle t ∷ [])) handle sent,
        unfold att_read_callback in
            (𝓑.read_blob_lem c'.buffer c'.len offset size
              ∙ ap (λ t. copied (take size (drop offset t))) sent),
        unfold att_read_callback in
            (𝓑.read_blob_null c'.buffer c'.len offset ∙ ap (λ k. (k, [])) said),
      )

  -- While they are off, heartbeats change nothing.
  pub heartbeats-off : (c : Counter) (n : ℕ) → c.notification_enabled ≡ false → heartbeats n c ≡ c
  heartbeats-off c zero off = refl
  heartbeats-off c (suc n) off =
      let stays : (heartbeat_handler 𝓟 c).0 ≡ c =
        heartbeat_handler_lem c ∙ ap (λ b. if b then beat 𝓟 c else c) off in
      ap (heartbeats n) stays ∙ heartbeats-off c n off
