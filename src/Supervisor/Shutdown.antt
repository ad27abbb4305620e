-- ===== src/Supervisor/Shutdown.antt =====
-- ezviz_stream_bridge/supervisor.py, lines 295 to 329: `_shutdown`. Each running process is given by
-- what the operating system does with it once it got its SIGTERM: the time at which it exits by
-- itself, if ever, and how long it takes to be reaped after a SIGKILL.
use ezviz_stream_bridge.Prelude.{
  ℕ, ◌+◌, ◌-◌, ◌*◌, ◌≤◌, ◌≡◌, refl, min, max, Bool, true, Option, none, some, List, [], ◌∷◌, arith,
  leb, leb→le, false, ◌⊎◌, inl, inr, Bool-cases, length, All, if◌then◌else◌,
}

abbrev pub shutdown_grace : ℕ
shutdown_grace = 10000

abbrev pub shutdown_kill_grace : ℕ
shutdown_kill_grace = 2000

pub record Child : Type 0 where
  pub pid : ℕ
  pub exits_at : Option ℕ
  pub reaped_after : ℕ

-- The clock after the waits, and the processes that got a SIGKILL, in their order.
pub record Stopped : Type 0 where
  pub clock : ℕ
  pub killed : List ℕ

-- `process.wait(timeout=...)`: it returns when the process has exited, at `exits_at`, unless that
-- is after the timeout.
abbrev pub exits_by : Child → ℕ → Bool
exits_by child latest = elim child.exits_at [ none ↦ false | some time ↦ leb time latest ]

-- The second loop, from the clock's reading `clock`: wait for what remains of the shared deadline,
-- and kill and reap the process that does not exit by then.
unfoldable pub wait_all : ℕ → ℕ → List Child → Stopped
wait_all deadline clock [] = record { clock = clock; killed = [] }
wait_all deadline clock (child ∷ children) =
    let latest = clock + (deadline - clock) in
    let patient =
      wait_all deadline (elim child.exits_at [ none ↦ clock | some time ↦ max clock time ])
        children in
    let forced = wait_all deadline (latest + min child.reaped_after shutdown_kill_grace) children in
    if exits_by child latest then patient else record forced { killed = child.pid ∷ forced.killed }

-- `_shutdown` over the running processes, all of which got a SIGTERM at the time `clock`.
unfoldable pub shutdown : ℕ → List Child → Stopped
shutdown clock children = wait_all (clock + shutdown_grace) clock children

-- The process exits by itself before the deadline.
abbrev pub Obeys : ℕ → Child → Type 0
Obeys deadline child = exits_by child deadline ≡ true

wait_all-bound :
    (deadline clock : ℕ) (children : List Child)
    → (wait_all deadline clock children).clock
      ≤ max deadline clock + shutdown_kill_grace * length (wait_all deadline clock children).killed
unfolding wait_all
wait_all-bound deadline clock [] = omega arith
wait_all-bound deadline clock (child ∷ children) = ground (
  arith,
  wait_all-bound deadline (elim child.exits_at [ none ↦ clock | some time ↦ max clock time ])
      children,
  wait_all-bound deadline (clock + (deadline - clock) + min child.reaped_after shutdown_kill_grace)
      children,
)

wait_all-obeyed :
    (deadline clock : ℕ) (children : List Child)
    → clock ≤ deadline
    → All (Obeys deadline) children
    → ((wait_all deadline clock children).clock ≤ deadline)
      × ((wait_all deadline clock children).killed ≡ [])
unfolding wait_all
wait_all-obeyed deadline clock [] h all = (h, refl)
wait_all-obeyed deadline clock (child ∷ children) h (obeys, rest) =
    let e : clock + (deadline - clock) ≡ deadline = omega arith in
    rw e
      (rw obeys (go child.exits_at obeys (λ c low. wait_all-obeyed deadline c children low rest)))
  where
    go :
        (o : Option ℕ)
        → elim o [ none ↦ false | some time ↦ leb time deadline ] ≡ true
        → ((c : ℕ)
            → c ≤ deadline
            → ((wait_all deadline c children).clock ≤ deadline)
              × ((wait_all deadline c children).killed ≡ []))
        → ((wait_all deadline (elim o [ none ↦ clock | some time ↦ max clock time ]) children).clock
            ≤ deadline)
          × ((wait_all deadline
                (elim o [ none ↦ clock | some time ↦ max clock time ])
                children).killed
              ≡ [])
    go none e again = again clock h
    go (some time) e again =
        let t = leb→le time deadline e in again (max clock time) (omega (arith, h, t))

shutdown-bound :
    (clock : ℕ) (children : List Child)
    → (shutdown clock children).clock
      ≤ clock + shutdown_grace + shutdown_kill_grace * length (shutdown clock children).killed
unfolding shutdown
shutdown-bound clock children =
    let e : max (clock + shutdown_grace) clock ≡ clock + shutdown_grace = omega arith in
    let bound = wait_all-bound (clock + shutdown_grace) clock children in omega (arith, bound, e)

shutdown-obeyed :
    (clock : ℕ) (children : List Child)
    → All (Obeys (clock + shutdown_grace)) children
    → ((shutdown clock children).clock ≤ clock + shutdown_grace)
      × ((shutdown clock children).killed ≡ [])
unfolding shutdown
shutdown-obeyed clock children all =
    wait_all-obeyed (clock + shutdown_grace) clock children (omega arith) all

-- A process that does not exit by itself before the deadline.
pub data SomeStays (deadline : ℕ) : List Child → Type 0 where
  stays :
      {child : Child} {children : List Child}
      → exits_by child deadline ≡ false
      → SomeStays deadline (child ∷ children)
  later :
      {child : Child} {children : List Child}
      → SomeStays deadline children
      → SomeStays deadline (child ∷ children)

all_or_some :
    (deadline : ℕ) (children : List Child)
    → All (Obeys deadline) children ⊎ SomeStays deadline children
all_or_some deadline [] = inl tt
all_or_some deadline (child ∷ children) = elim (Bool-cases (exits_by child deadline)) [
  | inl obeys ↦ elim (all_or_some deadline children) [
    | inl rest ↦ inl (obeys, rest)
    | inr some_ ↦ inr (later some_)
  ]
  | inr waits ↦ inr (stays waits)
]

-- A shutdown takes at most ten seconds, and two more for each process that had to be killed. None is
-- killed unless some process does not exit by itself within the ten seconds.
pub shutdown_lem :
    (clock : ℕ) (children : List Child)
    → ((shutdown clock children).clock
        ≤ clock + shutdown_grace + shutdown_kill_grace * length (shutdown clock children).killed)
      × (((shutdown clock children).killed ≡ []) ⊎ SomeStays (clock + shutdown_grace) children)
shutdown_lem clock children = (
  shutdown-bound clock children,
  elim (all_or_some (clock + shutdown_grace) children) [
    | inl obey ↦ inl (shutdown-obeyed clock children obey).1
    | inr waits ↦ inr waits
  ],
)
