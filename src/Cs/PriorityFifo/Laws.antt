-- ===== src/Cs/PriorityFifo/Laws.antt =====
-- The priority-FIFO policy meets the laws of a policy.
use nfd_qo_s.Base.{
  ℕ, ◌+◌, ◌≤◌, ◌<◌, ◌≡◌, refl, ap, ◌∙◌, inl, inr, Option, none, some, List, [], ◌∷◌, ◌++◌, arith,
  ◌==◌, if◌then◌else◌, Option-cases, ◌>>=◌,
}
use nfd_qo_s.Base.Occurs.{occurs, occurs-append, occurs-erase}
use nfd_qo_s.Base.Assoc.{lookup}
use nfd_qo_s.Cs.PriorityFifo.{
  QueueType, queue_unsolicited, queue_stale, queue_fifo, PriorityFifo, forget, leave_queue,
  join_queue, queue_for, attach_queue, detach_queue, front_of, evict_front, check_known,
  priority_fifo,
}
use nfd_qo_s.Cs.Policy.{Seen, IsPolicy}

abbrev is_type : QueueType → Option QueueType → ℕ
is_type queue_unsolicited (some queue_unsolicited) = 1
is_type queue_stale (some queue_stale) = 1
is_type queue_fifo (some queue_fifo) = 1
is_type t o = 0

-- An entry is once in the queue that its info names, and in no other.
pub record IsFiled (s : PriorityFifo) : Type 0 where
  pub in_unsolicited :
      (i : ℕ) → occurs i s.unsolicited ≡ is_type queue_unsolicited (lookup i s.infos)
  pub in_stale : (i : ℕ) → occurs i s.stale ≡ is_type queue_stale (lookup i s.infos)
  pub in_fifo : (i : ℕ) → occurs i s.fifo ≡ is_type queue_fifo (lookup i s.infos)

lookup-forget :
    (i j : ℕ) (m : List (ℕ × QueueType))
    → lookup j (forget i m) ≡ (if i == j then none else lookup j m)
unfolding forget lookup
lookup-forget i j [] = ground arith
lookup-forget i j ((k, t) ∷ m) = ground (arith, lookup-forget i j m)

abbrev kept : PriorityFifo → List ℕ
kept s = s.unsolicited ++ s.stale ++ s.fifo

occurs-kept :
    (i : ℕ) (s : PriorityFifo)
    → occurs i (kept s) ≡ occurs i s.unsolicited + occurs i s.stale + occurs i s.fifo
occurs-kept i s =
    occurs-append i (s.unsolicited ++ s.stale) s.fifo
    ∙ rw (occurs-append i s.unsolicited s.stale) (omega arith)

is_known : Option QueueType → ℕ
is_known none = 0
is_known (some t) = 1

kept-known :
    (i : ℕ) (s : PriorityFifo) → IsFiled s → occurs i (kept s) ≡ is_known (lookup i s.infos)
unfolding is_known
kept-known i s f =
    known (lookup i s.infos) (occurs-kept i s) (f.in_unsolicited i) (f.in_stale i) (f.in_fifo i)
  where
    known :
        (o : Option QueueType) {n a b c : ℕ}
        → n ≡ a + b + c
        → a ≡ is_type queue_unsolicited o
        → b ≡ is_type queue_stale o
        → c ≡ is_type queue_fifo o
        → n ≡ is_known o
    known none h a b c = omega arith
    known (some queue_unsolicited) h a b c = omega arith
    known (some queue_stale) h a b c = omega arith
    known (some queue_fifo) h a b c = omega arith

IsFiled-join :
    (t : QueueType) (h : ℕ) (s : PriorityFifo)
    → IsFiled s
    → lookup h s.infos ≡ none
    → IsFiled (join_queue t h (record s { infos = (h, t) ∷ s.infos }))
unfolding lookup
IsFiled-join queue_unsolicited h s f new = record {
  in_unsolicited =
      λ i. ground (arith, occurs-append i s.unsolicited (h ∷ []), f.in_unsolicited i, new);
  in_stale = λ i. ground (arith, f.in_stale i, new);
  in_fifo = λ i. ground (arith, f.in_fifo i, new);
}
IsFiled-join queue_stale h s f new = record {
  in_unsolicited = λ i. ground (arith, f.in_unsolicited i, new);
  in_stale = λ i. ground (arith, occurs-append i s.stale (h ∷ []), f.in_stale i, new);
  in_fifo = λ i. ground (arith, f.in_fifo i, new);
}
IsFiled-join queue_fifo h s f new = record {
  in_unsolicited = λ i. ground (arith, f.in_unsolicited i, new);
  in_stale = λ i. ground (arith, f.in_stale i, new);
  in_fifo = λ i. ground (arith, occurs-append i s.fifo (h ∷ []), f.in_fifo i, new);
}

IsFiled-leave :
    (t : QueueType) (h : ℕ) (s : PriorityFifo)
    → IsFiled s
    → lookup h s.infos ≡ some t
    → IsFiled (leave_queue t h (record s { infos = forget h s.infos }))
IsFiled-leave queue_unsolicited h s f there = record {
  in_unsolicited = λ i. ground (
    arith,
    occurs-erase h i s.unsolicited,
    lookup-forget h i s.infos,
    f.in_unsolicited i,
    f.in_unsolicited h,
    there,
  );
  in_stale = λ i. ground (arith, lookup-forget h i s.infos, f.in_stale i, f.in_stale h, there);
  in_fifo = λ i. ground (arith, lookup-forget h i s.infos, f.in_fifo i, f.in_fifo h, there);
}
IsFiled-leave queue_stale h s f there = record {
  in_unsolicited =
      λ i. ground (arith, lookup-forget h i s.infos, f.in_unsolicited i, f.in_unsolicited h, there);
  in_stale = λ i. ground (
    arith,
    occurs-erase h i s.stale,
    lookup-forget h i s.infos,
    f.in_stale i,
    f.in_stale h,
    there,
  );
  in_fifo = λ i. ground (arith, lookup-forget h i s.infos, f.in_fifo i, f.in_fifo h, there);
}
IsFiled-leave queue_fifo h s f there = record {
  in_unsolicited =
      λ i. ground (arith, lookup-forget h i s.infos, f.in_unsolicited i, f.in_unsolicited h, there);
  in_stale = λ i. ground (arith, lookup-forget h i s.infos, f.in_stale i, f.in_stale h, there);
  in_fifo = λ i.
      ground (
        arith,
        occurs-erase h i s.fifo,
        lookup-forget h i s.infos,
        f.in_fifo i,
        f.in_fifo h,
        there,
      );
}

occurs-join :
    (t : QueueType) (h : ℕ) (s : PriorityFifo) (i : ℕ)
    → occurs i (kept (join_queue t h s)) ≡ (if h == i then 1 else 0) + occurs i (kept s)
occurs-join queue_unsolicited h s i = omega (
  arith,
  occurs-kept i s,
  occurs-kept i (join_queue queue_unsolicited h s),
  occurs-append i s.unsolicited (h ∷ []),
)
occurs-join queue_stale h s i = omega (
  arith,
  occurs-kept i s,
  occurs-kept i (join_queue queue_stale h s),
  occurs-append i s.stale (h ∷ []),
)
occurs-join queue_fifo h s i = omega (
  arith,
  occurs-kept i s,
  occurs-kept i (join_queue queue_fifo h s),
  occurs-append i s.fifo (h ∷ []),
)

known_lem :
    (h : ℕ) (s : PriorityFifo)
    → IsFiled s
    → occurs h (kept s) ≡ 1
    → (t : QueueType) × (lookup h s.infos ≡ some t)
unfolding is_known
known_lem h s f one = elim (Option-cases (lookup h s.infos)) [
  | inl gone ↦ absurd (omega (arith, kept-known h s f, ap is_known gone))
  | inr there ↦ there
]

unknown_lem :
    (h : ℕ) (s : PriorityFifo) → IsFiled s → occurs h (kept s) ≡ 0 → lookup h s.infos ≡ none
unfolding is_known
unknown_lem h s f zero_times = elim (Option-cases (lookup h s.infos)) [
  | inl gone ↦ gone
  | inr (t, there) ↦ absurd (omega (arith, kept-known h s f, ap is_known there))
]

attach_queue_lem :
    (e : Seen) (s : PriorityFifo)
    → IsFiled s
    → occurs e.handle (kept s) ≡ 0
    → (s' : PriorityFifo) × (attach_queue e s ≡ some s')
      × IsFiled s'
      × ((i : ℕ) → occurs i (kept s') ≡ (if e.handle == i then 1 else 0) + occurs i (kept s))
unfolding attach_queue
attach_queue_lem e s f new =
    let gone = unknown_lem e.handle s f new in
    let t = queue_for e in
    let s' = join_queue t e.handle (record s { infos = (e.handle, t) ∷ s.infos }) in
    (
      s',
      ground (arith, gone),
      IsFiled-join t e.handle s f gone,
      λ i. occurs-join t e.handle (record s { infos = (e.handle, t) ∷ s.infos }) i,
    )

infos-leave : (t : QueueType) (h : ℕ) (s : PriorityFifo) → (leave_queue t h s).infos ≡ s.infos
infos-leave queue_unsolicited h s = refl
infos-leave queue_stale h s = refl
infos-leave queue_fifo h s = refl

detach_queue_lem :
    (h : ℕ) (s : PriorityFifo)
    → IsFiled s
    → occurs h (kept s) ≡ 1
    → (s' : PriorityFifo) × (detach_queue h s ≡ some s')
      × IsFiled s'
      × ((i : ℕ) → occurs i (kept s') ≡ (if h == i then 0 else occurs i (kept s)))
unfolding detach_queue is_known
detach_queue_lem h s f one =
    let (t, there) = known_lem h s f one in
    let s' = leave_queue t h (record s { infos = forget h s.infos }) in
    let f' = IsFiled-leave t h s f there in
    (
      s',
      ground (arith, there),
      f',
      λ i.
          kept-known i s' f'
          ∙ ap (λ m. is_known (lookup i m))
              (infos-leave t h (record s { infos = forget h s.infos }))
          ∙ ap is_known (lookup-forget h i s.infos)
          ∙ ground (arith, kept-known i s f),
    )

refresh_queue_lem :
    (e : Seen) (s : PriorityFifo)
    → IsFiled s
    → occurs e.handle (kept s) ≡ 1
    → (s' : PriorityFifo) × ((detach_queue e.handle s >>= attach_queue e) ≡ some s')
      × IsFiled s'
      × ((i : ℕ) → occurs i (kept s') ≡ occurs i (kept s))
refresh_queue_lem e s f one =
    let (s₁, left, f₁, gone) = detach_queue_lem e.handle s f one in
    let (s₂, joined, f₂, there) = attach_queue_lem e s₁ f₁ (gone e.handle ∙ ground arith) in
    (s₂, rw left joined, f₂, λ i. ground (arith, gone i, there i, one))

check_known_lem :
    (h : ℕ) (s : PriorityFifo) → IsFiled s → occurs h (kept s) ≡ 1 → check_known h s ≡ some s
unfolding check_known
check_known_lem h s f one = ground (arith, known_lem h s f one)

front_lem :
    (h : ℕ) (a b c : List ℕ)
    → 0 < occurs h (a ++ b ++ c)
    → (v : ℕ) × (front_of a b c ≡ some v) × (0 < occurs v (a ++ b ++ c))
front_lem h (v ∷ a) b c some_h = (v, refl, ground arith)
front_lem h [] (v ∷ b) c some_h = (v, refl, ground arith)
front_lem h [] [] (v ∷ c) some_h = (v, refl, ground arith)
front_lem h [] [] [] some_h = absurd (omega arith)

evict_front_lem :
    (h : ℕ) (s : PriorityFifo)
    → IsFiled s
    → ((i : ℕ) → occurs i (kept s) ≤ 1)
    → occurs h (kept s) ≡ 1
    → (v : ℕ) × (s' : PriorityFifo) × (evict_front s ≡ some (v, s'))
      × IsFiled s'
      × (occurs v (kept s) ≡ 1)
      × ((i : ℕ) → occurs i (kept s') ≡ (if v == i then 0 else occurs i (kept s)))
unfolding evict_front
evict_front_lem h s f few one =
    let (v, front, some_v) = front_lem h s.unsolicited s.stale s.fifo (omega arith) in
    let most = few v in
    let once : occurs v (kept s) ≡ 1 = omega arith in
    let (s', left, f', gone) = detach_queue_lem v s f once in
    (v, s', rw (front, left) refl, f', once, gone)

-- The queues of the priority-FIFO policy meet the laws of a policy.
pub priority_fifo-IsPolicy : IsPolicy priority_fifo
unfolding lookup priority_fifo
priority_fifo-IsPolicy = record {
  Keeps = IsFiled;
  start_keeps = record { in_unsolicited = λ i. refl; in_stale = λ i. refl; in_fifo = λ i. refl };
  start_empty = λ i. refl;
  attach_lem = attach_queue_lem;
  refresh_lem = refresh_queue_lem;
  detach_lem = detach_queue_lem;
  use_lem = λ h s f one. (s, check_known_lem h s f one, f, λ i. refl);
  evict_lem = evict_front_lem;
}
