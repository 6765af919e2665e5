-- ===== src/Retry/Heap.antt =====
-- heap.Push and heap.Pop on a heap.
use mathlib.Core.Bool.{Bool-set}
use mathlib.Core.List.{not-mem-nil, forall_mem-cons}
use mathlib.Core.List.Perm
use sse_eventbus_go.Prelude.{
  ℕ, zero, suc, ◌+◌, ◌-◌, ◌<◌, ◌≡◌, ◌∙◌, false, List, [], ◌∷◌, ◌++◌, Perm, Mem, arith, length, take,
  length-take, length-append,
}
use sse_eventbus_go.Retry.{RetryEvent, before, parent, heap_push, heap_pop, pop_last}
use sse_eventbus_go.Retry.Array.{
  at, get_elem?-at, at-append, at-take, take-append-at, concat-perm, swapped, at-swapped,
  length-swapped, swapped-perm, swap-eq-swapped,
}
use sse_eventbus_go.Retry.Order.{
  Gives, gives, Gives-bind, Gives-map, AllBounded, before-rank, IsHeap, Sifted, swapped-AllBounded,
  root_least,
}
use sse_eventbus_go.Retry.Up.{UpInv, up_restores}
use sse_eventbus_go.Retry.Down.{DownInv, down_restores}

-- A heap whose orders are uint64 values.
pub record IsRetryHeap (h : List RetryEvent) : Type 0 where
  pub ordered : IsHeap h
  pub bounded : AllBounded h

pub record Pushed (x : RetryEvent) (h r : List RetryEvent) : Type 0 where
  pub heap : IsRetryHeap r
  pub same : Perm r (x ∷ h)
  pub size : length r ≡ length h + 1

append-AllBounded :
    (h : List RetryEvent) (x : RetryEvent)
    → AllBounded h
    → x.retry_order < 18446744073709551616
    → AllBounded (h ++ x ∷ [])
append-AllBounded [] x b p zero = p
append-AllBounded [] x b p (suc i) = omega arith
append-AllBounded (y ∷ h) x b p zero = b 0
append-AllBounded (y ∷ h) x b p (suc i) = append-AllBounded h x (λ j. b (suc j)) p i

pub heap_push-Pushed :
    (x : RetryEvent) (h : List RetryEvent)
    → IsRetryHeap h
    → x.retry_order < 18446744073709551616
    → Gives (Pushed x h) (heap_push x h)
unfolding heap_push
heap_push-Pushed x h v p = Gives-map (up_restores (h ++ x ∷ []) _ start) λ r s. record {
  heap = record { ordered = rw (s.size) (s.ordered); bounded = s.bounded };
  same = Perm.trans s.same (concat-perm h x);
  size = s.size ∙ grown;
}
  where
    grown : length (h ++ x ∷ []) ≡ length h + 1
    grown = length-append h (x ∷ [])

    start : UpInv (h ++ x ∷ []) (length (h ++ x ∷ []) - 1)
    start = record {
      inside = omega (arith, grown);
      edges = λ c q r s.
          ground
            (arith, grown, v.ordered c, at-append h (x ∷ []) c, at-append h (x ∷ []) (parent c));
      bridged = λ c q r s t u. absurd (omega (arith, grown));
      bounded = append-AllBounded h x v.bounded p;
    }

-- No event of the list comes before `x`.
abbrev pub IsEarliest : RetryEvent → List RetryEvent → Type 0
IsEarliest x h = (y : RetryEvent) → Mem y h → before y x ≡ false

all_of_at :
    (h : List RetryEvent) (x : RetryEvent)
    → ((i : ℕ) → i < length h → before (at h i) x ≡ false)
    → IsEarliest x h
all_of_at [] x f = λ y m. absurd (not-mem-nil m)
all_of_at (z ∷ h) x f =
    (forall_mem-cons λ y. Bool-set _ _).1
      (f 0 (omega arith), all_of_at h x λ i p. f (suc i) (omega arith))

pub root-IsEarliest : (h : List RetryEvent) → IsRetryHeap h → IsEarliest (at h 0) h
root-IsEarliest h v = all_of_at h (at h 0) λ i p.
    before-rank (at h i) (at h 0) (v.bounded i) (v.bounded 0)
    ∙ ground (arith, root_least (length h) h i v.ordered)

-- heap.Pop gives the first event in order, and a heap of the others.
pub record Popped (h : List RetryEvent) (r : RetryEvent × List RetryEvent) : Type 0 where
  pub root : r.0 ≡ at h 0
  pub heap : IsRetryHeap r.1
  pub same : Perm (r.0 ∷ r.1) h
  pub size : length r.1 + 1 ≡ length h

take-AllBounded : (n : ℕ) (h : List RetryEvent) → AllBounded h → AllBounded (take n h)
take-AllBounded zero h b i = omega arith
take-AllBounded (suc n) [] b i = omega arith
take-AllBounded (suc n) (x ∷ h) b zero = b 0
take-AllBounded (suc n) (x ∷ h) b (suc i) = take-AllBounded n h (λ j. b (suc j)) i

module _ (h : List RetryEvent) (n : ℕ) (size : length h ≡ suc n) (v : IsRetryHeap h) where
  swapped-DownInv : DownInv 0 n (swapped h 0 n) 0
  swapped-DownInv =
      let moved = at-swapped h 0 n (omega arith) (omega arith) in
      record {
        fits = omega (arith, length-swapped h 0 n);
        edges = λ c p q r t. ground (arith, v.ordered c, moved c, moved (parent c));
        bridged = omega arith;
        bounded = swapped-AllBounded h 0 n (omega arith) (omega arith) v.bounded;
      }

  pop_last-Popped :
      (s : List RetryEvent) → Sifted 0 n (swapped h 0 n) s → Gives (Popped h) (pop_last s)
  unfolding pop_last
  pop_last-Popped s t =
      rw (last, get_elem?-at s n (omega (arith, long)))
        (gives (record {
          root =
              t.others n (omega arith)
              ∙ ground (arith, at-swapped h 0 n (omega arith) (omega arith) n);
          heap = record {
            ordered = λ c p q r.
                ground (arith, short, t.ordered c, at-take n s c, at-take n s (parent c));
            bounded = take-AllBounded n s t.bounded;
          };
          same = Perm.trans (Perm.symm (concat-perm (take n s) (at s n))) (
              rw (take-append-at n s long)
                (Perm.trans t.same (swapped-perm h 0 n (omega arith) (omega arith))));
          size = omega (arith, short);
        }))
    where
      last : length s - 1 ≡ n
      last = omega (arith, t.size, length-swapped h 0 n)

      long : length s ≡ suc n
      long = t.size ∙ length-swapped h 0 n ∙ size

      short : length (take n s) ≡ n
      short = omega (arith, length-take n s, long)

pub heap_pop-Popped :
    (h : List RetryEvent) → IsRetryHeap h → 0 < length h → Gives (Popped h) (heap_pop h)
unfolding heap_pop
heap_pop-Popped h v p =
    let n = length h - 1 in
    let size : length h ≡ suc n = omega arith in
    rw (swap-eq-swapped h 0 n p (omega arith)) (
      Gives-bind (down_restores 0 n (swapped h 0 n) 0 (swapped-DownInv h n size v))
        λ s t. pop_last-Popped h n size v s t)
