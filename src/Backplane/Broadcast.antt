-- ===== src/Backplane/Broadcast.antt =====
-- What is published is called back, in order.
use bungohan.Base.{
  ℕ, String, ◌≡◌, refl, sym, subst, ◌∙◌, ap, true, false, none, some, List, [], ◌∷◌, ◌++◌, map,
  if◌then◌else◌, length, append_assoc, append-nil, Option-cases, inl, inr,
}
use bungohan.Base.Dict
use bungohan.Base.Dict.{Dict}
use bungohan.Base.Keys.{string_keys, number_keys}
use bungohan.Backplane.{
  Channels, called, MemoryBackplane, Task, Delivery, Net, plane_of, deliver, publish_to, publish,
  dispatch, run_task, run_tasks,
}

has-none :
    (chs : Channels) (channel : String) → Dict.get chs channel ≡ none → Dict.has chs channel ≡ false
has-none chs channel e = rw (e, Dict.has) refl

has-some :
    (chs : Channels) (channel : String) (cs : List ℕ)
    → Dict.get chs channel ≡ some cs
    → Dict.has chs channel ≡ true
has-some chs channel cs e = rw (e, Dict.has) refl

-- The callbacks that the map of a member has under a channel.
unfoldable pub listeners : Dict ℕ MemoryBackplane → ℕ → String → List ℕ
listeners planes m channel = elim (Dict.get planes m) [
  | none ↦ []
  | some p ↦ elim (Dict.get p.channels channel) [ none ↦ [] | some cs ↦ cs ]
]

module _ {D : Type 0} where
  -- A call of each of these callbacks of a member, in turn.
  unfoldable pub calls_to : ℕ → D → List ℕ → List (Delivery D)
  calls_to m d [] = []
  calls_to m d (c ∷ cs) = record { to = m; callback = c; payload = d } ∷ calls_to m d cs

  -- The calls that a message makes: of each member of the bus in turn, each callback in turn.
  unfoldable pub heard : Dict ℕ MemoryBackplane → List ℕ → String → D → List (Delivery D)
  heard planes [] channel d = []
  heard planes (m ∷ ms) channel d =
      calls_to m d (listeners planes m channel) ++ heard planes ms channel d

  -- The calls of all the messages, one message after the other.
  unfoldable pub broadcast : Net D → List (String × D) → List (Delivery D)
  broadcast net [] = []
  broadcast net ((channel, d) ∷ messages) =
      heard net.planes net.members channel d ++ broadcast net messages

  pub publish_all : Net D → ℕ → List (String × D) → Net D
  publish_all net m [] = net
  publish_all net m ((channel, d) ∷ messages) = publish_all (publish net m channel d).0 m messages

  -- What the waiting tasks will call.
  pub dispatch_all : Dict ℕ MemoryBackplane → List (Task D) → List (Delivery D)
  dispatch_all planes [] = []
  dispatch_all planes (t ∷ ts) = dispatch planes t ++ dispatch_all planes ts

  dispatch_all-append :
      (planes : Dict ℕ MemoryBackplane) (ts us : List (Task D))
      → dispatch_all planes (ts ++ us) ≡ dispatch_all planes ts ++ dispatch_all planes us
  unfolding dispatch_all
  dispatch_all-append planes [] us = refl
  dispatch_all-append planes (t ∷ ts) us =
      rw (dispatch_all-append planes ts us)
        (sym (append_assoc (dispatch planes t) (dispatch_all planes ts) (dispatch_all planes us)))

  -- A member without the channel gets no task, and would have called nothing.
  dispatch_all-deliver :
      (planes : Dict ℕ MemoryBackplane) (m : ℕ) (channel : String) (d : D)
      → dispatch_all planes (deliver planes m channel d)
        ≡ dispatch planes (record { member = m; channel = channel; bytes = d })
  unfolding dispatch_all deliver dispatch called
  dispatch_all-deliver planes m channel d = elim (Option-cases (Dict.get planes m)) [
    | inl e ↦ rw (e, deliver, dispatch) refl
    | inr (p, e) ↦ elim (Option-cases (Dict.get p.channels channel)) [
      | inl g ↦
          rw (e, g, deliver, dispatch, called)
            (ap
              (λ b.
                dispatch_all planes
                  (if b then record { member = m; channel = channel; bytes = d } ∷ [] else []))
              (has-none p.channels channel g))
      | inr (cs, g) ↦
          rw (e, g, deliver, dispatch, called)
            (ap
                (λ b.
                  dispatch_all planes
                    (if b then record { member = m; channel = channel; bytes = d } ∷ [] else []))
                (has-some p.channels channel cs g)
              ∙ append-nil (dispatch planes (record { member = m; channel = channel; bytes = d }))
              ∙ rw (e, g, dispatch, called) refl)
    ]
  ]

  map-calls_to :
      (m : ℕ) (d : D) (cs : List ℕ)
      → map (λ c. record { to = m; callback = c; payload = d }) cs ≡ calls_to m d cs
  unfolding calls_to
  map-calls_to m d [] = refl
  map-calls_to m d (c ∷ cs) =
      ap (λ l. record { to = m; callback = c; payload = d } ∷ l) (map-calls_to m d cs)

  -- A task calls just the callbacks that listen.
  dispatch-calls_to :
      (planes : Dict ℕ MemoryBackplane) (m : ℕ) (channel : String) (d : D)
      → dispatch planes (record { member = m; channel = channel; bytes = d })
        ≡ calls_to m d (listeners planes m channel)
  unfolding dispatch called listeners calls_to
  dispatch-calls_to planes m channel d = elim (Option-cases (Dict.get planes m)) [
    | inl e ↦ rw (e, dispatch, listeners) refl
    | inr (p, e) ↦ elim (Option-cases (Dict.get p.channels channel)) [
      | inl g ↦ rw (e, g, dispatch, called, listeners) refl
      | inr (cs, g) ↦ rw (e, g, dispatch, called, listeners) (map-calls_to m d cs)
    ]
  ]

  dispatch_all-publish_to :
      (planes : Dict ℕ MemoryBackplane) (ms : List ℕ) (channel : String) (d : D)
      → dispatch_all planes (publish_to planes ms channel d) ≡ heard planes ms channel d
  unfolding publish_to heard dispatch_all
  dispatch_all-publish_to planes [] channel d = refl
  dispatch_all-publish_to planes (m ∷ ms) channel d =
      dispatch_all-append planes (deliver planes m channel d) (publish_to planes ms channel d)
      ∙ rw
          (
            dispatch_all-deliver planes m channel d,
            dispatch-calls_to planes m channel d,
            dispatch_all-publish_to planes ms channel d,
          )
          refl

  -- Draining the tasks makes their calls, in order.
  run_tasks_lem :
      (planes : Dict ℕ MemoryBackplane) (ms : List ℕ) (ts : List (Task D))
      (calls : List (Delivery D))
      → run_tasks (length ts) (record { planes = planes; members = ms; tasks = ts; calls = calls })
        ≡ record {
          planes = planes;
          members = ms;
          tasks = [];
          calls = calls ++ dispatch_all planes ts;
        }
  unfolding run_tasks run_task dispatch_all
  run_tasks_lem planes ms [] calls = rw (append-nil calls) refl
  run_tasks_lem planes ms (t ∷ ts) calls =
      run_tasks_lem planes ms ts (calls ++ dispatch planes t)
      ∙ rw (append_assoc calls (dispatch planes t) (dispatch_all planes ts)) refl

  -- The tasks of the messages that an open backplane publishes.
  pub tasks_of : Net D → List (String × D) → List (Task D)
  tasks_of net [] = []
  tasks_of net ((channel, d) ∷ messages) =
      publish_to net.planes net.members channel d ++ tasks_of net messages

  dispatch_all-tasks_of :
      (net : Net D) (messages : List (String × D))
      → dispatch_all net.planes (tasks_of net messages) ≡ broadcast net messages
  unfolding tasks_of broadcast dispatch_all
  dispatch_all-tasks_of net [] = refl
  dispatch_all-tasks_of net ((channel, d) ∷ messages) =
      dispatch_all-append net.planes (publish_to net.planes net.members channel d)
        (tasks_of net messages)
      ∙ rw
          (
            dispatch_all-publish_to net.planes net.members channel d,
            dispatch_all-tasks_of net messages,
          )
          refl

  publish_open :
      (net : Net D) (m : ℕ) (channel : String) (d : D)
      → (plane_of net m).closed ≡ false
      → publish net m channel d
        ≡ (record net { tasks = net.tasks ++ publish_to net.planes net.members channel d }, true)
  unfolding publish
  publish_open net m channel d o = rw o refl

  publish_all_lem :
      (net : Net D) (m : ℕ) (ts : List (Task D)) (messages : List (String × D))
      → (plane_of net m).closed ≡ false
      → publish_all (record net { tasks = ts }) m messages
        ≡ record net { tasks = ts ++ tasks_of net messages }
  unfolding publish_all tasks_of
  publish_all_lem net m ts [] o = rw (append-nil ts) refl
  publish_all_lem net m ts ((channel, d) ∷ messages) o =
      let us = publish_to net.planes net.members channel d in
      rw (publish_open (record net { tasks = ts }) m channel d o) (
        publish_all_lem net m (ts ++ us) messages o
        ∙ rw (append_assoc ts us (tasks_of net messages)) refl)

  -- When an open backplane publishes messages while no task waits, and the platform then runs all
  -- the tasks, every message was called back, in the order of publishing: of each member of the
  -- bus in turn, the publisher among them, each callback of the message's channel in turn. No
  -- task is left.
  pub run_tasks-publish_all :
      (net : Net D) (m : ℕ) (messages : List (String × D))
      → (plane_of net m).closed ≡ false
      → net.tasks ≡ []
      → run_tasks (length (publish_all net m messages).tasks) (publish_all net m messages)
        ≡ record net { tasks = []; calls = net.calls ++ broadcast net messages }
  run_tasks-publish_all net m messages o e =
      let p : publish_all net m messages ≡ record net { tasks = tasks_of net messages } =
        subst
          (λ ts.
            publish_all (record net { tasks = ts }) m messages
            ≡ record net { tasks = tasks_of net messages })
          (sym e) (publish_all_lem net m [] messages o) in
      rw p (
        run_tasks_lem net.planes net.members (tasks_of net messages) net.calls
        ∙ rw (dispatch_all-tasks_of net messages) refl)
