-- ===== src/Ring/Refine.antt =====
-- The ring of src/lib/ring_buffer.rs behaves as the bounded queue of the values that it holds.
use zheos.Common.{ℕ, zero, suc, ◌+◌, ◌-◌, ◌%◌, ◌<◌, true, false, not, ◌&&◌, List, [], ◌∷◌, ◌++◌}
use zheos.Common.{
  ◌≡◌, ◌≢◌, refl, ap, ap₂, ◌∙◌, sym, arith, none, Bool-cases, inl, inr, ◌==◌, if◌then◌else◌,
}
use zheos.Common.{
  length, ltb, get_elem?, get_or, set, get_elem?-eq-get_or, get_or-set_self, get_or-set_ne,
}
use zheos.Common.{length-set, length-replicate}
use zheos.Ring.Queue
use zheos.Ring.Queue.{Op, put, get}
use zheos.Ring.{RingBuffer, ring_buffer_size, new, push, pop, run}

-- The array has its size, the indices lie in it, and `full` is set only where they meet.
pub record IsValid {A : Type 0} (r : RingBuffer A) : Type 0 where
  pub storage : length r.buffer ≡ 256
  pub head_in : r.head < 256
  pub tail_in : r.tail < 256
  pub full_at : r.full ≡ true → r.tail ≡ r.head

module _ {A : Type 0} where
  pub new-IsValid : (default : A) → IsValid (new default)
  unfolding new
  new-IsValid default = record {
    storage = length-replicate 256 default;
    head_in = omega arith;
    tail_in = omega arith;
    full_at = λ e. refl;
  }

  pub push-IsValid : {r : RingBuffer A} (x : A) → IsValid r → IsValid (push r x)
  unfolding push
  push-IsValid {r} x v = ground (arith, length-set r.buffer (r.tail % 256) x)

  pub pop-IsValid : {r : RingBuffer A} → IsValid r → IsValid (pop r).1
  unfolding pop
  pop-IsValid v = ground arith

  -- How many values the ring holds.
  abbrev pub count : RingBuffer A → ℕ
  count r = if r.full then 256 else (r.tail + 256 - r.head) % 256

  push-full : (r : RingBuffer A) (x : A) → r.full ≡ true → push r x ≡ r
  unfolding push
  push-full r x f = rw f

  push-room :
      {r : RingBuffer A} (x : A)
      → IsValid r
      → r.full ≡ false
      → ((push r x).buffer ≡ set r.buffer r.tail x) × ((push r x).head ≡ r.head)
  unfolding push
  push-room {r} x v f = let e : r.tail % 256 ≡ r.tail = omega arith in (rw (f, e), rw f)

  pop-empty : (r : RingBuffer A) → (not r.full && r.tail == r.head) ≡ true → pop r ≡ (none, r)
  unfolding pop
  pop-empty r e = rw e

  pop-some :
      {r : RingBuffer A}
      → IsValid r
      → (not r.full && r.tail == r.head) ≡ false
      → ((pop r).0 ≡ get_elem? r.buffer r.head)
        × ((pop r).1.buffer ≡ r.buffer)
        × ((pop r).1.head ≡ (r.head + 1) % 256)
  unfolding pop
  pop-some {r} v e =
      let small : r.head % 256 ≡ r.head = omega arith in (rw (e, small), rw e, rw e (omega arith))

  count-push :
      {r : RingBuffer A} (x : A) → IsValid r → r.full ≡ false → count (push r x) ≡ suc (count r)
  unfolding push
  count-push x v f = ground arith

  count-lt : {r : RingBuffer A} → IsValid r → r.full ≡ false → count r < 256
  count-lt v f = ground arith

  count-pop_empty :
      {r : RingBuffer A} → IsValid r → (not r.full && r.tail == r.head) ≡ true → count r ≡ 0
  count-pop_empty v e = ground arith

  count-pop :
      {r : RingBuffer A}
      → IsValid r
      → (not r.full && r.tail == r.head) ≡ false
      → count r ≡ suc (count (pop r).1)
  unfolding pop
  count-pop v e = ground arith

ap₃ :
    {A B C D : Type 0} (f : A → B → C → D) {a a' : A} {b b' : B} {c c' : C}
    → a ≡ a'
    → b ≡ b'
    → c ≡ c'
    → f a b c ≡ f a' b' c'
ap₃ f p q r = λ i. f (p i) (q i) (r i)

module _ {A : Type 0} (default : A) where
  -- The `n` values from index `h` on, going round at the end of the array.
  abbrev pub window : List A → ℕ → ℕ → List A
  window buffer h zero = []
  window buffer h (suc n) = get_or buffer h default ∷ window buffer ((h + 1) % 256) n

  length-window : (buffer : List A) (h n : ℕ) → length (window buffer h n) ≡ n
  length-window buffer h zero = refl
  length-window buffer h (suc n) = ap suc (length-window buffer ((h + 1) % 256) n)

  window_of_pos :
      (buffer : List A) (h n : ℕ)
      → n ≢ 0
      → window buffer h n ≡ get_or buffer h default ∷ window buffer ((h + 1) % 256) (n - 1)
  window_of_pos buffer h zero p = absurd (p refl)
  window_of_pos buffer h (suc n) p = ap (λ k. window buffer h (suc k)) (omega arith)

  -- Writing just past a window that leaves room extends it.
  window-set :
      (buffer : List A) (x : A) (n h i : ℕ)
      → length buffer ≡ 256
      → h < 256
      → n < 256
      → i ≡ (h + n) % 256
      → window (set buffer i x) h (suc n) ≡ window buffer h n ++ (x ∷ [])
  window-set buffer x zero h i size hh hn e =
      let e' : i ≡ h = omega arith in ground (arith, get_or-set_self buffer h x default)
  window-set buffer x (suc n) h i size hh hn e =
      ap₂ ◌∷◌ (get_or-set_ne buffer {i = i} {j = h} x default (omega arith))
        (window-set buffer x n ((h + 1) % 256) i size (omega arith) (omega arith) (omega arith))

  abbrev pub contents : RingBuffer A → List A
  contents r = window r.buffer r.head (count r)

  pub contents-new : contents (new default) ≡ []
  unfolding new
  contents-new = refl

  pub push_refines :
      {r : RingBuffer A} (x : A)
      → IsValid r
      → contents (push r x) ≡ Queue.push ring_buffer_size (contents r) x
  push_refines {r} x v = elim (Bool-cases r.full) [
    | inl f ↦
        let size : count r ≡ 256 = ground arith in
        let long : ltb (length (contents r)) 256 ≡ false =
          ground (arith, length-window r.buffer r.head (count r)) in
        ap contents (push-full r x f)
        ∙ ap (λ b. if b then contents r ++ (x ∷ []) else contents r) (sym long)
    | inr f ↦
        let short : ltb (length (contents r)) 256 ≡ true =
          ground (arith, length-window r.buffer r.head (count r), count-lt v f) in
        let (buffer, head) = push-room x v f in
        ap₃ window buffer head (count-push x v f)
        ∙ window-set r.buffer x (count r) r.head r.tail v.storage v.head_in (count-lt v f)
            (ground arith)
        ∙ ap (λ b. if b then contents r ++ (x ∷ []) else contents r) (sym short)
  ]

  pub pop_refines :
      {r : RingBuffer A}
      → IsValid r
      → ((pop r).0 ≡ (Queue.pop (contents r)).0) × (contents (pop r).1 ≡ (Queue.pop (contents r)).1)
  pop_refines {r} v = elim (Bool-cases (not r.full && r.tail == r.head)) [
    | inl e ↦
        let gone : contents r ≡ [] = ap (window r.buffer r.head) (count-pop_empty v e) in
        (
          ap (λ t. t.0) (pop-empty r e) ∙ ap (λ q. (Queue.pop q).0) (sym gone),
          ap (λ t. contents t.1) (pop-empty r e) ∙ gone ∙ ap (λ q. (Queue.pop q).1) (sym gone),
        )
    | inr e ↦
        let (value, buffer, head) = pop-some v e in
        let here : contents r ≡ get_or r.buffer r.head default ∷ contents (pop r).1 =
          ap (window r.buffer r.head) (count-pop v e)
          ∙ ap₂ (λ b h. get_or r.buffer r.head default ∷ window b h (count (pop r).1)) (sym buffer)
              (sym head) in
        (
          value
              ∙ get_elem?-eq-get_or r.buffer r.head default (omega arith)
              ∙ ap (λ q. (Queue.pop q).0) (sym here),
          ap (λ q. (Queue.pop q).1) (sym here),
        )
  ]

  pub run_refines :
      (ops : List (Op A)) {r : RingBuffer A}
      → IsValid r
      → run r ops ≡ Queue.run ring_buffer_size (contents r) ops
  unfolding run Queue.run
  run_refines [] v = refl
  run_refines (put x ∷ ops) v = rw (run_refines ops (push-IsValid x v), push_refines x v)
  run_refines (get ∷ ops) v =
      rw (run_refines ops (pop-IsValid v), (pop_refines v).0, (pop_refines v).1)

  -- Whatever calls a client makes of a new ring, `pop` returns what the queue of at most 256 values
  -- returns: values come out in the order they went in, and one pushed to a full ring is dropped.
  pub run-new : (ops : List (Op A)) → run (new default) ops ≡ Queue.run ring_buffer_size [] ops
  run-new ops = rw (← contents-new) (run_refines ops (new-IsValid default))
