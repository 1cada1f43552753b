-- ===== src/Workflow/Workers/Fifo.antt =====
-- The queue against an ideal one: what was put in, in order, and how much of it was taken.
use business.Base.{
  Bool, ◌≤◌, ◌≡◌, refl, sym, ap, ◌∙◌, List, [], ◌∷◌, ◌++◌, Option, none, some, arith, length, ltb,
  append_assoc, Bool-cases, inl, inr, length-append, subst,
}
use business.Base.Int.{ℤ}
use business.Workflow.Workers.{Buffer, as_size, put, get, front}

-- A call by any thread; one that has to wait changes nothing.
pub data Call {ℓ} (A : Type ℓ) : Type ℓ where
  put_call : A → Call A
  get_call : Call A

-- The queue, with all that ever went in and all that came out.
pub record Log {ℓ} (A : Type ℓ) : Type ℓ where
  pub buffer : Buffer A
  pub went_in : List A
  pub came_out : List A

module _ {ℓ} {A : Type ℓ} where
  unfoldable pub after_put : A → Option (Buffer A) → Log A → Log A
  after_put a none l = l
  after_put a (some b) l = record l { buffer = b; went_in = l.went_in ++ a ∷ [] }

  unfoldable pub after_get : Option (A × Buffer A) → Log A → Log A
  after_get none l = l
  after_get (some (a, b)) l = record l { buffer = b; came_out = l.came_out ++ a ∷ [] }

  unfoldable pub calls : List (Call A) → Log A → Log A
  unfolding after_put after_get
  calls [] l = l
  calls (put_call a ∷ cs) l = calls cs (after_put a (put a l.buffer) l)
  calls (get_call ∷ cs) l = calls cs (after_get (get l.buffer) l)

  abbrev pub empty : ℤ → Log A
  empty max_size = record {
    buffer = record { max_size_ = max_size; data_ = [] };
    went_in = [];
    came_out = [];
  }

  pub record IsFifo (max_size : ℤ) (l : Log A) : Type ℓ where
    pub same_bound : l.buffer.max_size_ ≡ max_size
    pub in_order : l.went_in ≡ l.came_out ++ l.buffer.data_
    pub bounded : length l.buffer.data_ ≤ as_size max_size

  put-IsFifo :
      (max_size : ℤ) (a : A) (l : Log A)
      → IsFifo max_size l
      → IsFifo max_size (after_put a (put a l.buffer) l)
  unfolding put after_put
  put-IsFifo max_size a l h =
      elim (Bool-cases (ltb (length l.buffer.data_) (as_size l.buffer.max_size_))) [
        | inr full ↦ rw full h
        | inl room ↦ rw room (record {
          same_bound = h.same_bound;
          in_order =
              ap (λ xs. xs ++ a ∷ []) h.in_order ∙ append_assoc l.came_out l.buffer.data_ (a ∷ []);
          bounded =
              let fits =
                subst (λ n. ltb (length l.buffer.data_) (as_size n) ≡ Bool.true) h.same_bound
                  room in
              ground (arith, fits, length-append l.buffer.data_ (a ∷ []));
        })
      ]

  get-IsFifo :
      (max_size : ℤ) (xs : List A) (l : Log A)
      → l.buffer.data_ ≡ xs
      → IsFifo max_size l
      → IsFifo max_size (after_get (front xs l.buffer) l)
  unfolding front after_get
  get-IsFifo max_size [] l e h = h
  get-IsFifo max_size (a ∷ rest) l e h = record {
    same_bound = h.same_bound;
    in_order =
        h.in_order ∙ ap (λ xs. l.came_out ++ xs) e ∙ sym (append_assoc l.came_out (a ∷ []) rest);
    bounded = omega (arith, h.bounded, ap length e);
  }

  calls-IsFifo :
      (max_size : ℤ) (cs : List (Call A)) (l : Log A)
      → IsFifo max_size l
      → IsFifo max_size (calls cs l)
  unfolding calls get
  calls-IsFifo max_size [] l h = h
  calls-IsFifo max_size (put_call a ∷ cs) l h =
      calls-IsFifo max_size cs _ (put-IsFifo max_size a l h)
  calls-IsFifo max_size (get_call ∷ cs) l h =
      calls-IsFifo max_size cs _ (get-IsFifo max_size l.buffer.data_ l refl h)

  -- From an empty queue, whatever calls the threads make in whatever order: what came out and then what
  -- is in the queue are together, in this order, what went in; and the queue is never longer than its
  -- bound.
  pub calls-empty-IsFifo :
      (max_size : ℤ) (cs : List (Call A)) → IsFifo max_size (calls cs (empty max_size))
  calls-empty-IsFifo max_size cs =
      calls-IsFifo max_size cs (empty max_size)
        (record { same_bound = refl; in_order = refl; bounded = omega arith })
