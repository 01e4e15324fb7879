-- ===== src/Delivery/Limiter/Schedule.antt =====
-- Any interleaving of the turns and releases of a worker's calls keeps the limit of a destination.
use rc_pangjiahui.Prelude.{
  ℕ, ◌+◌, ◌-◌, ◌≤◌, String, Bool, ◌≡◌, ◌≢◌, refl, ◌∙◌, List, [], ◌∷◌, ◌=ₛ◌, eq_iff, ltb,
  if◌then◌else◌, arith, Bool-cases, inl, inr, All,
}
use rc_pangjiahui.Delivery.Limiter.{
  Limiter, Turn, refused, acquired, waits, acquire, release, lookup,
}
use rc_pangjiahui.Delivery.Limiter.Capacity.{
  active, acquire-acquired, acquire-not_acquired, release-active,
}

-- A turn of Acquire, or the end of a call that runs.
pub data Event : Type 0 where
  turn : (cancelled : Bool) (id : String) (limit : ℕ) → Event
  finish : (id : String) → Event

-- The limiter with the destinations of the calls that run.
pub record Worker : Type 0 where
  pub limiter : Limiter
  pub running : List String

abbrev pub count : String → List String → ℕ
count id [] = 0
count id (j ∷ js) = (if id =ₛ j then 1 else 0) + count id js

abbrev pub remove : String → List String → List String
remove id [] = []
remove id (j ∷ js) = if id =ₛ j then js else j ∷ remove id js

abbrev after_turn : String → Turn → List String → List String
after_turn id acquired js = id ∷ js
after_turn id _ js = js

-- Only a call that runs has the function that releases.
unfoldable pub step : Event → Worker → Worker
step (turn cancelled id limit) w =
    let (l, t) = acquire cancelled id limit w.limiter in
    record { limiter = l; running = after_turn id t w.running }
step (finish id) w =
    if ltb 0 (count id w.running)
    then record { limiter = release id w.limiter; running = remove id w.running }
    else w

unfoldable pub run : List Event → Worker → Worker
run [] w = w
run (e ∷ es) w = run es (step e w)

abbrev pub idle : Worker
idle = record { limiter = []; running = [] }

-- Every turn for the destination asks for at most `n`.
abbrev pub AsksWithin : String → ℕ → Event → Type 0
AsksWithin id n (turn cancelled j limit) = j ≡ id → limit ≤ n
AsksWithin id n (finish j) = Unit {0}

-- What the limiter counts is what runs, and at most `n` calls of the destination run.
pub record Within (id : String) (n : ℕ) (w : Worker) : Type 0 where
  pub counted : (j : String) → active j w.limiter ≡ count j w.running
  pub bounded : count id w.running ≤ n

count-remove :
    (id j : String) (js : List String)
    → count j (remove id js) ≡ (if id =ₛ j then count j js - 1 else count j js)
count-remove id j [] = ground (arith, eq_iff id j)
count-remove id j (k ∷ js) =
    ground (arith, eq_iff id j, eq_iff id k, eq_iff j k, count-remove id j js)

turn-Within :
    (id : String) (n : ℕ) (cancelled : Bool) (j : String) (limit : ℕ) (w : Worker)
    → (j ≡ id → limit ≤ n)
    → Within id n w
    → Within id n (step (turn cancelled j limit) w)
unfolding step
turn-Within id n cancelled j limit w asks h = go (acquire cancelled j limit w.limiter).1 refl
  where
    l : Limiter
    l = (acquire cancelled j limit w.limiter).0

    kept :
        (acquire cancelled j limit w.limiter).1 ≢ acquired
        → (k : String) → active k l ≡ count k w.running
    kept ne k = acquire-not_acquired cancelled j limit w.limiter ne k ∙ h.counted k

    go :
        (t : Turn)
        → (acquire cancelled j limit w.limiter).1 ≡ t
        → Within id n (record {
          limiter = l;
          running = after_turn j (acquire cancelled j limit w.limiter).1 w.running;
        })
    go refused e = rw e (record { counted = kept (λ q. ground (arith, e, q)); bounded = h.bounded })
    go waits e = rw e (record { counted = kept (λ q. ground (arith, e, q)); bounded = h.bounded })
    go acquired e =
        let (more, low, _, _, others) = acquire-acquired cancelled j limit w.limiter e in
        let counted : (k : String) → active k l ≡ count k (j ∷ w.running) = λ k.
          elim (Bool-cases (k =ₛ j)) [
            | inl same ↦ ground (arith, (eq_iff k j).0 same, same, more, h.counted j)
            | inr apart ↦
                ground
                  (arith, apart, others k (λ q. ground (arith, q, apart, eq_iff k j)), h.counted k)
          ] in
        rw e (record {
          counted = counted;
          bounded = ground (arith, counted id, eq_iff id j, low, asks, h.bounded);
        })

finish-Within :
    (id : String) (n : ℕ) (j : String) (w : Worker)
    → Within id n w
    → Within id n (step (finish j) w)
unfolding step
finish-Within id n j w h = elim (Bool-cases (ltb 0 (count j w.running))) [
  | inr none_runs ↦ rw none_runs h
  | inl runs ↦ rw runs (record {
    counted =
        λ k. ground (arith, release-active j k w.limiter, count-remove j k w.running, h.counted k);
    bounded = ground (arith, count-remove j id w.running, h.bounded);
  })
]

step-Within :
    (id : String) (n : ℕ) (e : Event) (w : Worker)
    → Within id n w
    → AsksWithin id n e
    → Within id n (step e w)
step-Within id n (turn cancelled j limit) w h asks = turn-Within id n cancelled j limit w asks h
step-Within id n (finish j) w h asks = finish-Within id n j w h

run-Within :
    (id : String) (n : ℕ) (es : List Event) (w : Worker)
    → Within id n w
    → All (AsksWithin id n) es
    → Within id n (run es w)
unfolding run
run-Within id n [] w h asks = h
run-Within id n (e ∷ es) w h asks =
    run-Within id n es (step e w) (step-Within id n e w h asks.0) asks.1

-- While no turn for the destination asks for more than `n`, no history of turns and releases from
-- the start runs more than `n` of its calls at once, and what the limiter counts for each
-- destination is what runs.
pub concurrency_limited :
    (id : String) (n : ℕ) (es : List Event)
    → All (AsksWithin id n) es
    → let w = run es idle in
      (count id w.running ≤ n) × ((j : String) → active j w.limiter ≡ count j w.running)
unfolding lookup
concurrency_limited id n es asks =
    let w = run-Within id n es idle start asks in (w.bounded, w.counted)
  where
    start : Within id n idle
    start = record { counted = λ j. refl; bounded = omega arith }
