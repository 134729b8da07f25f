-- ===== src/BoundedQueue/Others.antt =====
-- What one access of a thread to a slot of evenk/bounded_queue.h leaves to the other threads at it.
use evenk.Prelude.{ℕ, ◌+◌, ◌-◌, ◌%◌, ◌≤◌, ◌<◌, ◌≡◌, ◌≢◌, Bool, Option, some, arith, refl}
use evenk.BoundedQueue.Encoding.{number}
use evenk.BoundedQueue.Slot.{IsMarked}
use evenk.BoundedQueue.Roles.{Role, free, producer, consumer, trier, count_of, AreApart, RoleAt}

module _ {ℓ} {A : Type ℓ} (put get : A → Option A) (tail head : ℕ) (w : A) (t : ℕ) (x : A) where
  -- A mark by `wait` or `close`.
  pub RoleAt-mark :
      (role : Role A) (t' : ℕ)
      → IsMarked t t'
      → RoleAt put get tail head w role t x
      → RoleAt put get tail head w role t' x
  RoleAt-mark free t' m h = refl
  RoleAt-mark (producer p v seen stored) t' m h = ground arith
  RoleAt-mark (consumer c seen taken result) t' m h = ground (arith, h.delivered)
  RoleAt-mark (trier c seen) t' m h = ground arith

  -- A write of the value by the producer whose turn it is.
  pub RoleAt-put :
      (role : Role A) (q : ℕ) (v : A) (seen : ℕ) (stored : Bool) (y : A)
      → q % 16 ≡ count_of role % 16
      → AreApart role (producer q v seen stored)
      → number q t ≡ q
      → t % 4 ≡ 0
      → RoleAt put get tail head w role t x
      → RoleAt put get tail head w role t y
  RoleAt-put free q _ _ _ y same apart turn pending h = refl
  RoleAt-put (producer p v seen stored) q _ _ _ y same apart turn pending h = ground arith
  RoleAt-put (consumer c seen taken result) q _ _ _ y same apart turn pending h =
      ground (arith, h.delivered)
  RoleAt-put (trier c seen) q _ _ _ y same apart turn pending h = ground arith

  -- Its mark that the value is there, or that there is none.
  pub RoleAt-wake :
      (role : Role A) (q flag : ℕ) (v : A) (seen : ℕ) (stored : Bool)
      → q % 16 ≡ count_of role % 16
      → AreApart role (producer q v seen stored)
      → number q t ≡ q
      → t % 4 ≡ 0
      → flag ≤ 2
      → flag ≢ 0
      → (flag ≡ 1 → count_of role ≡ q → put w ≡ some x)
      → RoleAt put get tail head w role t x
      → RoleAt put get tail head w role (q - q % 16 + flag) x
  RoleAt-wake free q flag _ _ _ same apart turn pending few some_flag value h = refl
  RoleAt-wake (producer p v seen stored) q flag _ _ _ same apart turn pending few some_flag value
        h =
      ground arith
  RoleAt-wake (consumer c seen taken result) q flag _ _ _ same apart turn pending few some_flag
        value h =
      ground (arith, h.delivered)
  RoleAt-wake (trier c seen) q flag _ _ _ same apart turn pending few some_flag value h =
      ground arith

  -- A move out of the value by the consumer whose turn it is.
  pub RoleAt-get :
      (role : Role A) (d seen : ℕ) (taken : Bool) (result : Option A) (y : A)
      → d % 16 ≡ count_of role % 16
      → AreApart role (consumer d seen taken result)
      → number d t ≡ d
      → t % 4 ≢ 0
      → RoleAt put get tail head w role t x
      → RoleAt put get tail head w role t y
  RoleAt-get free d _ _ _ y same apart turn full h = refl
  RoleAt-get (producer p v seen stored) d _ _ _ y same apart turn full h = ground arith
  RoleAt-get (consumer c seen taken result) d _ _ _ y same apart turn full h =
      ground (arith, h.delivered)
  RoleAt-get (trier c seen) d _ _ _ y same apart turn full h = ground arith

  -- Its step to the next ticket of the slot.
  pub RoleAt-next :
      (role : Role A) (size d seen : ℕ) (taken : Bool) (result : Option A)
      → size % 16 ≡ 0
      → d % 16 ≡ count_of role % 16
      → (d < count_of role → d + size ≤ count_of role)
      → AreApart role (consumer d seen taken result)
      → d < head
      → number d t ≡ d
      → t % 4 ≢ 0
      → RoleAt put get tail head w role t x
      → RoleAt put get tail head w role (d - d % 16 + size) x
  RoleAt-next free size d _ _ _ round same gap apart below turn full h = refl
  RoleAt-next (producer p v seen stored) size d _ _ _ round same gap apart below turn full h =
      ground arith
  RoleAt-next (consumer c seen taken result) size d _ _ _ round same gap apart below turn full h =
      ground (arith, h.delivered)
  RoleAt-next (trier c seen) size d _ _ _ round same gap apart below turn full h = ground arith

  -- The counters grow, and a call of `wait_push` writes its value into the log.
  pub RoleAt-grow :
      (role : Role A) (tail' head' : ℕ) (w' : A)
      → tail ≤ tail'
      → head ≤ head'
      → (count_of role < tail → w' ≡ w)
      → (t % 4 ≢ 0 → number (count_of role) t < tail)
      → RoleAt put get tail head w role t x
      → RoleAt put get tail' head' w' role t x
  RoleAt-grow free tail' head' w' more_tail more_head same pushed h = refl
  RoleAt-grow (producer p v seen stored) tail' head' w' more_tail more_head same pushed h =
      ground arith
  RoleAt-grow (consumer c seen taken result) tail' head' w' more_tail more_head same pushed h =
      ground (arith, h.delivered)
  RoleAt-grow (trier c seen) tail' head' w' more_tail more_head same pushed h = ground arith
