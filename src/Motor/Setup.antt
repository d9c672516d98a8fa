-- ===== src/Motor/Setup.antt =====
-- `motor_inference_init` of src/motor_inference.cpp: the model, the delegate, the tensors and the warm-up.
use imx8mp_pipe_line_setup.Prelude.{
  ℕ, ◌*◌, ◌≡◌, refl, sym, ap, Bool, true, false, not, ◌&&◌, ◌||◌, Option, none, some, List, [], ◌∷◌,
  ◌==◌, if◌then◌else◌, replicate, Bytes, if_elim, arith,
}
use imx8mp_pipe_line_setup.Prelude.Int.{ℤ, pos, minus_one}
use imx8mp_pipe_line_setup.Double.{Double, Libm}
use imx8mp_pipe_line_setup.Pipeline.History.{new_history}
use imx8mp_pipe_line_setup.Pipeline.Ema.{new_ema}
use imx8mp_pipe_line_setup.Motor.{
  Interpreter, Motor, initial_motor, input_zero_point, seq_len, motor_inference_reset,
}
use imx8mp_pipe_line_setup.Motor.Session.{run, run-reset, ForgetsVariables}

-- What TensorFlow Lite answers for one model and one delegate, and the variable tensors that
-- `AllocateTensors()` leaves.
pub record Runtime (V : Type 0) : Type 0 where
  pub model_loads : Bool
  pub interpreter_builds : Bool
  pub delegate_loads : Bool
  pub delegate_accepts : Bool
  pub tensors_allocate : Bool
  pub input_is_int8 : Bool
  pub output_is_int8 : Bool
  pub input_size : ℕ
  pub output_size : ℕ
  pub variables : V

-- A path is `none` for the null pointer.
unfoldable pub use_npu : Option Bytes → Bool
use_npu none = false
use_npu (some []) = false
use_npu (some (c ∷ path)) = true

-- The model and its runtime are what the step relies on.
pub record IsUsable {V : Type 0} (runtime : Runtime V) (npu : Bool) : Type 0 where
  pub model_loads : runtime.model_loads ≡ true
  pub interpreter_builds : runtime.interpreter_builds ≡ true
  pub delegate_loads : npu && not runtime.delegate_loads ≡ false
  pub delegate_accepts : npu && not runtime.delegate_accepts ≡ false
  pub tensors_allocate : runtime.tensors_allocate ≡ true
  pub input_is_int8 : runtime.input_is_int8 ≡ true
  pub output_is_int8 : runtime.output_is_int8 ≡ true
  pub input_size : runtime.input_size ≡ 40
  pub output_size : runtime.output_size ≡ 3

-- Without a delegate nothing runs and the variables are those of `AllocateTensors()`; on one the throwaway
-- call has succeeded, and the variables are those it has left.
pub data WarmedUp {V : Type 0} (runtime : Runtime V) (interpreter : Interpreter V) (npu : Bool)
    (variables : V) : Type 0 where
  on_cpu : npu ≡ false → variables ≡ runtime.variables → WarmedUp runtime interpreter npu variables
  on_npu :
      (out_data : List ℤ)
      → npu ≡ true
      → interpreter.invoke runtime.variables (replicate 40 input_zero_point)
        ≡ (some out_data, variables)
      → WarmedUp runtime interpreter npu variables

module _ {W V : Type 0} where
  after_warm_up : Option (List ℤ) → Motor W V → ℤ × Option (Motor W V)
  after_warm_up none motor = (minus_one, some motor)
  after_warm_up (some out_data) motor = (pos 0, some motor)

  -- The throwaway call of `Invoke()`, on an input tensor filled with the zero point.
  pub warm_up : Bool → Interpreter V → Motor W V → ℤ × Option (Motor W V)
  unfolding after_warm_up
  warm_up false interpreter motor = (pos 0, some motor)
  warm_up true interpreter motor =
      let (result, variables') =
        interpreter.invoke motor.variables (replicate (seq_len * 2) input_zero_point) in
      after_warm_up result (record motor { variables = variables' })

module _ {W V : Type 0} ⦃d : Double W⦄ ⦃m : Libm W⦄ (runtime : Runtime V)
    (interpreter : Interpreter V) where
  -- The return value, and what the step works on, `none` until it is set up.
  unfoldable pub motor_inference_init : Option Bytes → Option (Motor W V) → ℤ × Option (Motor W V)
  unfolding use_npu warm_up initial_motor
  motor_inference_init delegate_path motor =
      if not runtime.model_loads
      then (minus_one, motor)
      else if not runtime.interpreter_builds
      then (minus_one, motor)
      else if use_npu delegate_path && not runtime.delegate_loads
      then (minus_one, motor)
      else if use_npu delegate_path && not runtime.delegate_accepts
      then (minus_one, motor)
      else if not runtime.tensors_allocate
      then (minus_one, motor)
      else if not runtime.input_is_int8 || not runtime.output_is_int8
      then (minus_one, motor)
      else if not (runtime.input_size == seq_len * 2) || not (runtime.output_size == 3)
      then (minus_one, motor)
      else warm_up (use_npu delegate_path) interpreter (initial_motor runtime.variables)

  -- Set up, with a fresh history and filter, or refused.
  pub data InitOutcome (delegate_path : Option Bytes) (r : ℤ × Option (Motor W V)) : Type 0 where
    ready :
        (variables : V)
        → IsUsable runtime (use_npu delegate_path)
        → WarmedUp runtime interpreter (use_npu delegate_path) variables
        → r ≡ (pos 0, some (initial_motor variables))
        → InitOutcome delegate_path r
    unusable :
        ¬ IsUsable runtime (use_npu delegate_path) → r.0 ≡ minus_one → InitOutcome delegate_path r
    no_warm_up :
        use_npu delegate_path ≡ true
        → (interpreter.invoke runtime.variables (replicate 40 input_zero_point)).0 ≡ none
        → r.0 ≡ minus_one
        → InitOutcome delegate_path r

  -- The warm-up, on a machine with the delegate and on one without.
  warm_up-InitOutcome :
      (delegate_path : Option Bytes) (npu : Bool)
      → use_npu delegate_path ≡ npu
      → IsUsable runtime (use_npu delegate_path)
      → InitOutcome delegate_path (warm_up npu interpreter (initial_motor runtime.variables))
  unfolding warm_up initial_motor
  warm_up-InitOutcome delegate_path false e u = ready runtime.variables u (on_cpu e refl) refl
  warm_up-InitOutcome delegate_path true e u =
      let r = interpreter.invoke runtime.variables (replicate 40 input_zero_point) in
      after r.0 r.1 refl
    where
      after :
          (o : Option (List ℤ)) (variables : V)
          → interpreter.invoke runtime.variables (replicate 40 input_zero_point) ≡ (o, variables)
          → InitOutcome delegate_path (after_warm_up o (initial_motor variables))
      after none variables k = no_warm_up e (ap (λ r. r.0) k) refl
      after (some out_data) variables k = ready variables u (on_npu out_data e k) refl

  -- motor_inference_init returns 0 only if every check of the model, the delegate and the tensors passed
  -- and, on a delegate, the warm-up call of Invoke() succeeded; it leaves a fresh history and filter, and
  -- the variables are those after that call, or of AllocateTensors() without a delegate. Else it returns
  -- -1, because a check failed or the warm-up did.
  pub motor_inference_init-InitOutcome :
      (delegate_path : Option Bytes) (motor : Option (Motor W V))
      → InitOutcome delegate_path (motor_inference_init delegate_path motor)
  unfolding motor_inference_init
  motor_inference_init-InitOutcome delegate_path motor =
      let P = InitOutcome delegate_path in
      let npu = use_npu delegate_path in
      if_elim P (not runtime.model_loads) (λ h. unusable (λ u. ground arith) refl)
        λ loads.
          if_elim P (not runtime.interpreter_builds) (λ h. unusable (λ u. ground arith) refl)
            λ builds.
              if_elim P (npu && not runtime.delegate_loads) (λ h. unusable (λ u. ground arith) refl)
                λ delegate.
                  if_elim P (npu && not runtime.delegate_accepts)
                    (λ h. unusable (λ u. ground arith) refl)
                    λ accepts.
                      if_elim P (not runtime.tensors_allocate)
                        (λ h. unusable (λ u. ground arith) refl)
                        λ allocates.
                          if_elim P (not runtime.input_is_int8 || not runtime.output_is_int8)
                            (λ h. unusable (λ u. ground arith) refl)
                            λ types.
                              if_elim P
                                (not (runtime.input_size == 40) || not (runtime.output_size == 3))
                                (λ h. unusable (λ u. ground arith) refl)
                                λ sizes. warm_up-InitOutcome delegate_path npu refl (record {
                                  model_loads = ground arith;
                                  interpreter_builds = ground arith;
                                  delegate_loads = delegate;
                                  delegate_accepts = accepts;
                                  tensors_allocate = ground arith;
                                  input_is_int8 = ground arith;
                                  output_is_int8 = ground arith;
                                  input_size = ground arith;
                                  output_size = ground arith;
                                })

module _ {W V : Type 0} ⦃d : Double W⦄ ⦃m : Libm W⦄ (interpreter : Interpreter V) where
  InitOutcome-initial :
      (runtime : Runtime V) (delegate_path : Option Bytes) (r : ℤ × Option (Motor W V))
      (a : Motor W V)
      → InitOutcome runtime interpreter delegate_path r
      → r ≡ (pos 0, some a)
      → (variables : V) × (initial_motor variables ≡ a)
  InitOutcome-initial runtime delegate_path r a (ready variables u warm e) k = (variables, cc)
  InitOutcome-initial runtime delegate_path r a (unusable u e) k = absurd cc
  InitOutcome-initial runtime delegate_path r a (no_warm_up npu ran e) k = absurd cc

  initial_motor-run :
      (joysticks : List (W × W)) (v w : V)
      → ForgetsVariables interpreter
      → run interpreter joysticks (motor_inference_reset interpreter (initial_motor v))
        ≡ run interpreter joysticks (motor_inference_reset interpreter (initial_motor w))
  unfolding initial_motor new_history new_ema
  initial_motor-run joysticks v w forgets =
      run-reset interpreter joysticks (initial_motor v) (initial_motor w) forgets refl refl
        (refl, (refl, tt))

  -- For one interpreter, that of a model on one delegate or on none, two set-ups that succeed give the
  -- same session after them, whatever variables AllocateTensors() left, what the warm-up made of them,
  -- and what was set up before. The interpreter's reset of its variables does not depend on what they
  -- were, which motor_inference.h leaves open for the NPU.
  pub motor_inference_init-run :
      (runtime runtime' : Runtime V) (delegate_path : Option Bytes)
      (before before' : Option (Motor W V)) (a b : Motor W V) (joysticks : List (W × W))
      → ForgetsVariables interpreter
      → motor_inference_init runtime interpreter delegate_path before ≡ (pos 0, some a)
      → motor_inference_init runtime' interpreter delegate_path before' ≡ (pos 0, some b)
      → run interpreter joysticks (motor_inference_reset interpreter a)
        ≡ run interpreter joysticks (motor_inference_reset interpreter b)
  motor_inference_init-run runtime runtime' delegate_path before before' a b joysticks forgets e
        e' =
      let (v, v_is) =
        InitOutcome-initial runtime delegate_path _ a
          (motor_inference_init-InitOutcome runtime interpreter delegate_path before) e in
      let (w, w_is) =
        InitOutcome-initial runtime' delegate_path _ b
          (motor_inference_init-InitOutcome runtime' interpreter delegate_path before') e' in
      rw (sym v_is, sym w_is) (initial_motor-run joysticks v w forgets)
