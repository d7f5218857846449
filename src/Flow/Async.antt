-- ===== src/Flow/Async.antt =====
-- `Async` (moonflow/core_scheduler.mbt): a computation that has its value or is a thunk for the rest
-- of it. Forcing a thunk may do anything to the world outside the program, `W`: the first field of
-- `suspend` is what it does, the second what it returns.
use moonbit.Prelude.{◌≡◌, refl}

pub data Async (W T : Type 0) : Type 0 where
  pure : T → Async W T
  suspend : (W → W) → (W → Async W T) → Async W T

module _ {W : Type 0} where
  unfoldable pub bind : {T U : Type 0} → Async W T → (T → Async W U) → Async W U
  bind (pure v) f = f v
  bind (suspend e s) f = suspend e (λ w. bind (s w) f)

  unfoldable pub amap : {T U : Type 0} → Async W T → (T → U) → Async W U
  amap (pure v) f = pure (f v)
  amap (suspend e s) f = suspend e (λ w. amap (s w) f)

  unfoldable pub run : {T : Type 0} → Async W T → W → T × W
  run (pure v) w = (v, w)
  run (suspend e s) w = run (s w) (e w)

  -- Running a bind runs the first computation, then what the function makes of its value, in the
  -- world that the first one leaves.
  run-bind :
      {T U : Type 0} (m : Async W T) (f : T → Async W U) (w : W)
      → run (bind m f) w ≡ (let (v, w') = run m w in run (f v) w')
  unfolding run bind
  run-bind (pure v) f w = refl
  run-bind (suspend e s) f w = run-bind (s w) f (e w)

  -- Binding is associative.
  pub bind_assoc :
      {T U V : Type 0} (m : Async W T) (f : T → Async W U) (g : U → Async W V)
      → bind (bind m f) g ≡ bind m (λ v. bind (f v) g)
  unfolding bind
  bind_assoc (pure v) f g = refl
  bind_assoc (suspend e s) f g = λ i. suspend e (λ w. bind_assoc (s w) f g i)

  -- Mapping is binding a function that returns at once.
  pub amap-eq-bind :
      {T U : Type 0} (m : Async W T) (f : T → U) → amap m f ≡ bind m (λ v. pure (f v))
  unfolding bind amap
  amap-eq-bind (pure v) f = refl
  amap-eq-bind (suspend e s) f = λ i. suspend e (λ w. amap-eq-bind (s w) f i)
