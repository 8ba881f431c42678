-- ===== src/Rxc/Trampoline/Queue.antt =====
-- The nodes in memory keep the list of tasks that the pipelines' worker has.
use sas.Base.{
  ℕ, ◌+◌, ◌≤◌, ◌<◌, ◌≡◌, refl, sym, ap, ◌∙◌, true, false, List, [], ◌∷◌, ◌++◌, Option, none, some,
  ok, ◌>>=◌, ◌==◌, arith,
}
use sas.Rxc.Trampoline.{QueueNode, Worker, set_node, node_at, node_enqueue, node_dequeue, node_free}

-- the nodes from `p` to `t`, linked by `prev`, hold the tasks; each is at a greater address than
-- the one before
abbrev pub Linked : (ℕ → Option QueueNode) → ℕ → ℕ → ℕ → List ℕ → Type 0
Linked nodes p t task [] = (p ≡ t) × (nodes p ≡ some (record { task = task; prev = none }))
Linked nodes p t task (next ∷ tasks) =
    (q : ℕ) × (nodes p ≡ some (record { task = task; prev = some q }))
    × (p < q)
    × Linked nodes q t next tasks

-- the queue holds the tasks, the first to run foremost
abbrev pub Holds : Worker → List ℕ → Type 0
Holds w [] = (w.head ≡ none) × (w.tail ≡ none)
Holds w (task ∷ tasks) =
    (p : ℕ) × (t : ℕ) × (w.head ≡ some p)
    × (w.tail ≡ some t)
    × (p ≤ t)
    × (t < w.fresh)
    × Linked w.nodes p t task tasks

Linked-le :
    (nodes : ℕ → Option QueueNode) (p t task : ℕ) (tasks : List ℕ)
    → Linked nodes p t task tasks
    → p ≤ t
Linked-le nodes p t task [] (same, at) = omega arith
Linked-le nodes p t task (next ∷ tasks) (q, at, up, rest) =
    let further = Linked-le nodes q t next tasks rest in omega arith

-- the nodes once another is allocated and stands behind the last
abbrev appended : (ℕ → Option QueueNode) → ℕ → ℕ → ℕ → QueueNode → ℕ → Option QueueNode
appended nodes t fresh new n =
    set_node (set_node nodes fresh (some (record { task = new; prev = none }))) t
      (some (record n { prev = some fresh }))

Linked-snoc :
    (nodes : ℕ → Option QueueNode) (p t fresh task new : ℕ) (tasks : List ℕ)
    → t < fresh
    → Linked nodes p t task tasks
    → (n : QueueNode) × (nodes t ≡ some n)
      × Linked (appended nodes t fresh new n) p fresh task (tasks ++ new ∷ [])
Linked-snoc nodes p t fresh task new [] below (same, at) =
    let here : (t == p) ≡ true = ground arith in
    let other : (t == fresh) ≡ false = ground arith in
    let self : (fresh == fresh) ≡ true = ground arith in
    (
      record { task = task; prev = none },
      ap nodes (sym same) ∙ at,
      (fresh, rw here, omega arith, (refl, rw (other, self))),
    )
Linked-snoc nodes p t fresh task new (next ∷ tasks) below (q, at, up, rest) =
    let (n, last, linked) = Linked-snoc nodes q t fresh next new tasks below rest in
    let further = Linked-le nodes q t next tasks rest in
    let other : (t == p) ≡ false = ground arith in
    let old : (fresh == p) ≡ false = ground arith in (n, last, (q, rw (other, old) at, up, linked))

-- freeing a node before the first
Linked-freed :
    (nodes : ℕ → Option QueueNode) (r p t task : ℕ) (tasks : List ℕ)
    → r < p
    → Linked nodes p t task tasks
    → Linked (set_node nodes r none) p t task tasks
Linked-freed nodes r p t task [] below (same, at) =
    let other : (r == p) ≡ false = ground arith in (same, rw other at)
Linked-freed nodes r p t task (next ∷ tasks) below (q, at, up, rest) =
    let other : (r == p) ≡ false = ground arith in
    (q, rw other at, up, Linked-freed nodes r q t next tasks (omega arith) rest)

-- Enqueueing on a queue that holds a list of tasks in memory ends without a fault, and the queue then
-- holds the list with the new task at its end, as the pipelines' worker has it.
pub enqueue-Holds :
    (w : Worker) (tasks : List ℕ) (new : ℕ)
    → Holds w tasks
    → (w' : Worker) × (node_enqueue new w ≡ ok w') × Holds w' (tasks ++ new ∷ [])
unfolding node_enqueue node_at
enqueue-Holds w [] new (empty, no_tail) =
    let self : (w.fresh == w.fresh) ≡ true = ground arith in
    (
      record w {
        head = some w.fresh;
        tail = some w.fresh;
        nodes = set_node w.nodes w.fresh (some (record { task = new; prev = none }));
        fresh = w.fresh + 1;
      },
      rw empty,
      (w.fresh, w.fresh, refl, refl, omega arith, omega arith, (refl, rw self)),
    )
enqueue-Holds w (task ∷ tasks) new (p, t, head, tail, up, below, linked) =
    let (n, last, longer) = Linked-snoc w.nodes p t w.fresh task new tasks below linked in
    let old : (w.fresh == t) ≡ false = ground arith in
    (
      record w {
        tail = some w.fresh;
        nodes = appended w.nodes t w.fresh new n;
        fresh = w.fresh + 1;
      },
      rw (head, tail, old, last, ◌>>=◌),
      (p, w.fresh, head, refl, omega arith, omega arith, longer),
    )

-- Dequeueing from a queue that holds a list of tasks in memory gives its first task, and once the
-- node is freed the queue holds the rest.
pub dequeue-Holds :
    (w : Worker) (task : ℕ) (tasks : List ℕ)
    → Holds w (task ∷ tasks)
    → (p : ℕ) × (w' : Worker) × (node_dequeue w ≡ ok (some (p, task), w'))
      × Holds (node_free p w') tasks
unfolding node_dequeue node_at
dequeue-Holds w task [] (p, t, head, tail, up, below, (same, at)) =
    (p, record w { head = none; tail = none }, rw (head, at, ◌>>=◌), (refl, refl))
dequeue-Holds w task (next ∷ tasks) (p, t, head, tail, up, below, (q, at, higher, rest)) = (
  p,
  record w { head = some q },
  rw (head, at, ◌>>=◌),
  (
    q,
    t,
    refl,
    tail,
    Linked-le w.nodes q t next tasks rest,
    below,
    Linked-freed w.nodes p q t next tasks higher rest,
  ),
)
