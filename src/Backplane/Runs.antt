-- ===== src/Backplane/Runs.antt =====
-- Runs of the backplane, and its theorem at a concrete input.
use bungohan.Base.{ℕ, ◌≡◌, refl, false, [], ◌∷◌, ◌++◌, length}
use bungohan.Base.Dict
use bungohan.Base.Keys.{string_keys, number_keys}
use bungohan.Backplane.{
  Net, join, subscribe, publish, publish_to, deliver, close, add, insert, without, called, dispatch,
  run_task, run_tasks,
}
use bungohan.Backplane.Broadcast.{
  heard, listeners, calls_to, broadcast, publish_all, run_tasks-publish_all,
}

-- Two backplanes on a bus: callbacks 1 and 2 of the first, and 3 of the second, listen to "chat".
abbrev wired : Net ℕ
wired = record {
  planes =
      (0, record { channels = ("chat", 1 ∷ 2 ∷ []) ∷ []; closed = false })
      ∷ (1, record { channels = ("chat", 3 ∷ []) ∷ ("news", 4 ∷ []) ∷ []; closed = false })
      ∷ [];
  members = 0 ∷ 1 ∷ [];
  tasks = [];
  calls = [];
}

wired_run :
    (subscribe
      (subscribe
        (subscribe
          (subscribe
            (join (join (record { planes = []; members = []; tasks = []; calls = [] }) 0) 1)
            0
            "chat"
            1).0
          0
          "chat"
          2).0
        1
        "chat"
        3).0
      1
      "news"
      4).0
    ≡ wired
unfolding join subscribe add insert Dict.get Dict.set
wired_run = refl

heard_run :
    broadcast wired (("chat", 7) ∷ ("news", 8) ∷ [])
    ≡ record { to = 0; callback = 1; payload = 7 }
      ∷ record { to = 0; callback = 2; payload = 7 }
      ∷ record { to = 1; callback = 3; payload = 7 }
      ∷ record { to = 1; callback = 4; payload = 8 }
      ∷ []
unfolding broadcast heard calls_to listeners Dict.get
heard_run = refl

run_tasks-publish_all_example :
    run_tasks
      (length (publish_all wired 0 (("chat", 7) ∷ ("news", 8) ∷ [])).tasks)
      (publish_all wired 0 (("chat", 7) ∷ ("news", 8) ∷ []))
    ≡ record wired { tasks = []; calls = [] ++ broadcast wired (("chat", 7) ∷ ("news", 8) ∷ []) }
unfolding Dict.get
run_tasks-publish_all_example =
    run_tasks-publish_all wired 0 (("chat", 7) ∷ ("news", 8) ∷ []) refl refl

-- A closed backplane hears nothing of what was published before.
late_close :
    (run_task (close (publish wired 0 "chat" 7).0 1)).calls
    ≡ record { to = 0; callback = 1; payload = 7 }
      ∷ record { to = 0; callback = 2; payload = 7 }
      ∷ []
unfolding run_task close publish publish_to deliver dispatch called without Dict.get Dict.set
late_close = refl
