-- ===== src/Gatt/Peripheral/Server/Lifecycle.antt =====
-- The static RUNTIME over the whole life of a process: servers are constructed, asked to advertise
-- and dropped, while BTstack runs the updates and calls the callbacks at any time.
use btstack_rs.Common.{
  ◌≡◌, ◌∙◌, refl, ap, Bool, true, false, Option, none, some, List, [], ◌∷◌, ◌++◌, arith,
}
use btstack_rs.Gatt.Peripheral.Types.{PeripheralSpec, RuntimeState}
use btstack_rs.Gatt.Peripheral.Btstack.{Btstack, Call}
use btstack_rs.Gatt.Peripheral.Valid.{Iteration, IsValid}
use btstack_rs.Gatt.Peripheral.Server.{
  new, start_advertising, stop, set_advertising, run_loop_advertising_update, drop_server,
}
use btstack_rs.Gatt.Peripheral.Server.Life.{new-IsValid}
use btstack_rs.Gatt.Peripheral.Server.Advertising.{System, told}
use btstack_rs.Gatt.Peripheral.Callbacks.{packet_handler, att_write_callback}
use btstack_rs.Gatt.Peripheral.Callbacks.Events.{callback, IsSound, callback-Step, packet, write}
use btstack_rs.Gatt.Peripheral.Callbacks.Events as Callbacks
use btstack_rs.Gatt.Peripheral.Callbacks.Invariant.{Step-IsValid}

pub data Event : Type 0 where
  constructs : PeripheralSpec → Event
  starts stops drops updates : Event
  calls : Callbacks.Event → Event

-- What RUNTIME holds is nothing, or a server whose maps agree.
abbrev pub IsLegal : Option RuntimeState → Type 0
IsLegal none = Unit
IsLegal (some rt) = IsValid rt

abbrev pub AllSound : List Event → Type 0
AllSound [] = Unit
AllSound (calls e ∷ events) = IsSound e × AllSound events
AllSound (_ ∷ events) = AllSound events

abbrev pub NoneConstructed : List Event → Type 0
NoneConstructed [] = Unit
NoneConstructed (constructs _ ∷ events) = ⊥
NoneConstructed (_ ∷ events) = NoneConstructed events

abbrev pub nothing : System
nothing = record { runtime = none; advertising = false }

-- The calls of BTstack that an operation makes also reach the controller.
abbrev with_calls : System → Option RuntimeState → List Call → System
with_calls s runtime made = record { runtime = runtime; advertising = told made s.advertising }

abbrev with_state : System → Option (Option RuntimeState) → Option System
with_state s none = none
with_state s (some runtime) = some (record s { runtime = runtime })

module _ (𝓘 : Iteration) (𝓑 : Btstack) where
  -- `none`: a read beyond a buffer.
  pub step : Event → System → Option System
  step (constructs spec) s =
      let (runtime, _, made) = new 𝓑 𝓘.entries spec s.runtime in some (with_calls s runtime made)
  step starts s =
      let (runtime, made) = start_advertising s.runtime in some (with_calls s runtime made)
  step stops s = let (runtime, made) = stop s.runtime in some (with_calls s runtime made)
  step drops s = let (runtime, made) = drop_server s.runtime in some (with_calls s runtime made)
  step updates s = some (with_calls s s.runtime (run_loop_advertising_update s.runtime))
  step (calls e) s = with_state s (callback e s.runtime)

  pub run : List Event → System → Option System
  unfolding step
  run [] s = some s
  run (e ∷ events) s = elim (step e s) [ none ↦ none | some s' ↦ run events s' ]

  IsLegal-some :
      (o : Option RuntimeState) → ((rt : RuntimeState) → o ≡ some rt → IsValid rt) → IsLegal o
  IsLegal-some none h = tt
  IsLegal-some (some rt) h = h rt refl

  new-IsLegal :
      (spec : PeripheralSpec) (runtime : Option RuntimeState)
      → IsLegal runtime
      → IsLegal (new 𝓑 𝓘.entries spec runtime).0
  new-IsLegal spec none legal =
      IsLegal-some (new 𝓑 𝓘.entries spec none).0 (λ rt made. (new-IsValid 𝓘 𝓑 spec rt made).0)
  new-IsLegal spec (some rt) legal = unfold new in legal

  set_advertising-IsLegal :
      (b : Bool) (runtime : Option RuntimeState)
      → IsLegal runtime
      → IsLegal (set_advertising b runtime).0
  unfolding set_advertising
  set_advertising-IsLegal b none legal = legal
  set_advertising-IsLegal b (some rt) legal = ground arith

  callback-none : (e : Callbacks.Event) → callback e none ≡ some none
  callback-none (packet packet_type none) = unfold packet_handler in refl
  callback-none (packet packet_type (some data_)) = unfold packet_handler in refl
  callback-none (write h offset none size) = unfold att_write_callback in refl
  callback-none (write h offset (some buffer) size) = unfold att_write_callback in refl

  callback-IsLegal :
      (e : Callbacks.Event) (runtime : Option RuntimeState)
      → IsSound e
      → IsLegal runtime
      → (runtime' : Option RuntimeState) × (callback e runtime ≡ some runtime') × IsLegal runtime'
  callback-IsLegal e none sound legal = (none, callback-none e, tt)
  callback-IsLegal e (some rt) sound legal =
      let (rt', once, s) = callback-Step rt e sound in
      (some rt', once, Step-IsValid rt rt' e legal s)

  step-IsLegal :
      (e : Event) (s : System)
      → AllSound (e ∷ [])
      → IsLegal s.runtime
      → (s' : System) × (step e s ≡ some s') × IsLegal s'.runtime
  unfolding step
  step-IsLegal (constructs spec) s sound legal = (_, refl, new-IsLegal spec s.runtime legal)
  step-IsLegal starts s sound legal =
      (_, refl, unfold start_advertising in set_advertising-IsLegal true s.runtime legal)
  step-IsLegal stops s sound legal =
      (_, refl, unfold stop in set_advertising-IsLegal false s.runtime legal)
  step-IsLegal drops s sound legal = (_, refl, unfold drop_server in tt)
  step-IsLegal updates s sound legal = (_, refl, legal)
  step-IsLegal (calls e) s sound legal =
      let (runtime', once, legal') = callback-IsLegal e s.runtime sound.0 legal in
      (record s { runtime = runtime' }, ap (with_state s) once, legal')

  AllSound-head :
      (e : Event) (events : List Event)
      → AllSound (e ∷ events)
      → AllSound (e ∷ []) × AllSound events
  AllSound-head (constructs _) events sound = (tt, sound)
  AllSound-head starts events sound = (tt, sound)
  AllSound-head stops events sound = (tt, sound)
  AllSound-head drops events sound = (tt, sound)
  AllSound-head updates events sound = (tt, sound)
  AllSound-head (calls e) events (sound, rest) = ((sound, tt), rest)

  run-cons :
      (e : Event) (events : List Event) (s s' : System)
      → step e s ≡ some s'
      → run (e ∷ events) s ≡ run events s'
  unfolding run
  run-cons e events s s' once = rw (once, run) refl

  step-nothing : (e : Event) → NoneConstructed (e ∷ []) → step e nothing ≡ some nothing
  unfolding step start_advertising stop set_advertising run_loop_advertising_update drop_server
  step-nothing (constructs _) none_ = absurd none_
  step-nothing starts none_ = refl
  step-nothing stops none_ = refl
  step-nothing drops none_ = refl
  step-nothing updates none_ = refl
  step-nothing (calls e) none_ = ap (with_state nothing) (callback-none e)

  NoneConstructed-head :
      (e : Event) (events : List Event)
      → NoneConstructed (e ∷ events)
      → NoneConstructed (e ∷ []) × NoneConstructed events
  NoneConstructed-head (constructs _) events none_ = absurd none_
  NoneConstructed-head starts events none_ = (tt, none_)
  NoneConstructed-head stops events none_ = (tt, none_)
  NoneConstructed-head drops events none_ = (tt, none_)
  NoneConstructed-head updates events none_ = (tt, none_)
  NoneConstructed-head (calls e) events none_ = (tt, none_)

  run-nothing : (events : List Event) → NoneConstructed events → run events nothing ≡ some nothing
  run-nothing [] none_ = unfold run in refl
  run-nothing (e ∷ events) none_ =
      let (first, others) = NoneConstructed-head e events none_ in
      run-cons e events nothing nothing (step-nothing e first) ∙ run-nothing events others

  run-IsLegal :
      (before after : List Event) (s : System)
      → AllSound before
      → NoneConstructed after
      → IsLegal s.runtime
      → (s' : System) × (run before s ≡ some s')
        × IsLegal s'.runtime
        × (run (before ++ drops ∷ after) s ≡ some nothing)
  run-IsLegal [] after s sound none_ legal =
      let once : step drops s ≡ some nothing = unfold step drop_server in refl in
      (s, unfold run in refl, legal, run-cons drops after s nothing once ∙ run-nothing after none_)
  run-IsLegal (e ∷ before) after s sound none_ legal =
      let (first, others) = AllSound-head e before sound in
      let (s₁, once, legal₁) = step-IsLegal e s first legal in
      let (s', rest, legal', gone) = run-IsLegal before after s₁ others none_ legal₁ in
      (
        s',
        run-cons e before s s₁ once ∙ rest,
        legal',
        run-cons e (before ++ drops ∷ after) s s₁ once ∙ gone,
      )

  -- From the start of the program, whatever servers are constructed, asked to advertise and dropped,
  -- and whatever updates and calls of BTstack come in between, if each event packet holds its code,
  -- each ATT_EVENT_CONNECTED its handle, and each buffer is as long as its size: no callback reads
  -- beyond a buffer, and RUNTIME holds nothing or a server whose maps agree. After a
  -- drop, until the next server is constructed, RUNTIME holds nothing and the controller does not
  -- advertise, whatever requests, updates and calls are still to come, of any length.
  pub run-drops :
      (before after : List Event)
      → AllSound before
      → NoneConstructed after
      → (s : System) × (run before nothing ≡ some s)
        × IsLegal s.runtime
        × (run (before ++ drops ∷ after) nothing ≡ some nothing)
  run-drops before after sound none_ = run-IsLegal before after nothing sound none_ tt
