-- ===== src/Budget.antt =====
-- src/penampakan/reasoning/budget.py: the counters and the deadline of one run. A method runs under
-- the object's lock without awaiting, so it is one step on the state. A clock reading is an argument:
-- what the injected clock returned when the method asked it.
pub mod Calls
pub mod Limits
mod Final
mod Deadline
mod Account
mod Tests
use penampakan.Base.{
  ℕ, zero, suc, ◌+◌, ◌-◌, Bool, true, false, ◌&&◌, not, Option, none, some, ltb, leb, if◌then◌else◌,
}
use penampakan.Base.Int.{ℤ, pos, negsuc}
use penampakan.Base.Floats.{Floats, Arg, boolean, integer, real, other, max_float, min_float}
use penampakan.Base.Errors.{
  Error, value_error, step_limit_exceeded, llm_call_limit_exceeded, tool_limit_exceeded,
  backend_call_limit_exceeded, asset_limit_exceeded, derivation_depth_limit_exceeded,
  context_limit_exceeded, operation_timeout,
}
use penampakan.Base.Result
use penampakan.Base.Result.{Result, ok, raised, require, reject}
use penampakan.Base.Exec.{Exec, lift, gets, modify, reject_when, ◌>>=◌, ◌>>◌}
use penampakan.Config.{RunLimits, validate_timeout_s}

pub data BudgetStopReason : Type 0 where
  step_limit llm_limit tool_limit backend_limit asset_limit depth_limit context_limit :
      BudgetStopReason

-- `RunBudgetUsage`: the counters.
pub record RunBudgetUsage : Type 0 where
  pub steps : ℕ
  pub llm_calls : ℕ
  pub tool_calls : ℕ
  pub backend_calls : ℕ
  pub derived_assets : ℕ

-- `RunBudget`. A refund is refused where it would pass zero, so each counter is a natural number.
pub record RunBudget (F : Floats) : Type 0 where
  pub limits : RunLimits F
  pub started : F.Float
  pub timeout_s : F.Float
  pub deadline : F.Float
  pub usage : RunBudgetUsage
  pub open usage use *

-- `RemainingBudget` of models.py, as `remaining` fills it.
pub record RemainingBudget (F : Floats) : Type 0 where
  pub steps : ℕ
  pub llm_calls : ℕ
  pub tool_calls : ℕ
  pub backend_calls : ℕ
  pub derived_assets : ℕ
  pub derivation_depth : ℕ
  pub context_chars : ℕ
  pub remaining_time_s : F.Float

-- an `int` that is no `bool` and is positive
unfoldable pub positive_count : {V : Type 0} → Arg V → Result ℕ
positive_count (integer (pos (suc n))) = ok (suc n)
positive_count _ = raised value_error

-- an `int` that is no `bool` and is not negative
unfoldable pub non_negative : {V : Type 0} → Arg V → Result ℕ
non_negative (integer (pos n)) = ok n
non_negative _ = raised value_error

module _ (F : Floats) where
  finite_number : F.Float → Result F.Float
  finite_number x = if F.is_finite x then ok x else raised value_error

  -- `_read_clock`, from what the clock returned
  unfoldable pub read_clock : Arg F.Float → Result F.Float
  unfolding finite_number
  read_clock (integer n) = finite_number (F.of_int n)
  read_clock (real x) = finite_number x
  read_clock (boolean b) = raised value_error
  read_clock other = raised value_error

  abbrev no_usage : RunBudgetUsage
  no_usage = record {
    steps = 0;
    llm_calls = 0;
    tool_calls = 0;
    backend_calls = 0;
    derived_assets = 0;
  }

  -- `selected_timeout or limits.default_timeout_s`: a selected timeout is positive, hence true
  abbrev selected_or : Option F.Float → F.Float → F.Float
  selected_or none default = default
  selected_or (some x) default = x

  -- `RunBudget.__init__`
  unfoldable pub init : RunLimits F → Option (Arg F.Float) → Arg F.Float → Result (RunBudget F)
  unfolding read_clock validate_timeout_s
  init limits timeout_s clock = Result.◌>>=◌ (read_clock clock) λ started.
      Result.◌>>=◌ (validate_timeout_s F timeout_s) λ selected.
        let timeout = selected_or selected limits.default_timeout_s in
        ok (record {
          limits = limits;
          started = started;
          timeout_s = timeout;
          deadline = F.add started timeout;
          usage = no_usage;
        })

  -- `max(0.0, deadline - now)`
  abbrev pub time_left : RunBudget F → F.Float → F.Float
  time_left b now = max_float F F.zero_float (F.sub b.deadline now)

  unfoldable pub remaining_time_s : RunBudget F → Arg F.Float → Result F.Float
  unfolding read_clock
  remaining_time_s b clock = Result.◌>>=◌ (read_clock clock) λ now. ok (time_left b now)

  unfoldable pub check_deadline : RunBudget F → Arg F.Float → Result (Unit {0})
  unfolding remaining_time_s
  check_deadline b clock =
      Result.◌>>=◌ (remaining_time_s b clock)
        λ left. reject (F.le left F.zero_float) operation_timeout

  positive_seconds : F.Float → Result F.Float
  positive_seconds x =
      if F.is_finite x && not (F.le x F.zero_float) then ok x else raised value_error

  -- the test of `configured_timeout_s`
  component_seconds : Arg F.Float → Result F.Float
  unfolding positive_seconds
  component_seconds (integer n) = positive_seconds (F.of_int n)
  component_seconds (real x) = positive_seconds x
  component_seconds (boolean b) = raised value_error
  component_seconds other = raised value_error

  -- `component_timeout` reads the clock twice.
  unfoldable pub component_timeout :
      RunBudget F → Arg F.Float → Arg F.Float → Arg F.Float → Result F.Float
  unfolding check_deadline component_seconds
  component_timeout b configured clock clock' = Result.◌>>=◌ (component_seconds configured) λ value.
      Result.◌>>◌ (check_deadline b clock)
        (Result.◌>>=◌ (remaining_time_s b clock') λ left. ok (min_float F value left))

  unfoldable pub can_start_interactive_step : RunBudget F → Arg F.Float → Result Bool
  unfolding remaining_time_s
  can_start_interactive_step b clock = Result.◌>>=◌ (remaining_time_s b clock) λ left. ok (
      F.lt F.zero_float left
      && ltb b.steps (b.limits.max_steps - 1)
      && ltb b.llm_calls (b.limits.max_llm_calls - 1))

  unfoldable pub soft_stop_reason : RunBudget F → Option BudgetStopReason
  soft_stop_reason b =
      if leb (b.limits.max_steps - 1) b.steps
      then some step_limit
      else if leb (b.limits.max_llm_calls - 1) b.llm_calls
      then some llm_limit
      else none

  -- `self.check_deadline()` inside a method
  checked : Arg F.Float → Exec (RunBudget F) (Unit {0})
  unfolding check_deadline
  checked clock b = (check_deadline b clock, b)

  -- the maximum for one decision: the last one is kept for the final answer
  abbrev pub step_maximum : Bool → RunBudget F → ℕ
  step_maximum answer_only b = if answer_only then b.limits.max_steps else b.limits.max_steps - 1

  abbrev pub llm_maximum : Bool → RunBudget F → ℕ
  llm_maximum final b = if final then b.limits.max_llm_calls else b.limits.max_llm_calls - 1

  unfoldable pub reserve_step : Bool → Arg F.Float → Exec (RunBudget F) (Unit {0})
  unfolding checked
  reserve_step answer_only clock = do
    checked clock
    reject_when (λ b. leb (step_maximum answer_only b) b.steps) step_limit_exceeded
    modify (λ b. record b { usage = record b.usage { steps = b.steps + 1 } })

  unfoldable pub reserve_llm_call : Bool → Bool → Arg F.Float → Exec (RunBudget F) (Unit {0})
  unfolding checked
  reserve_llm_call final repair clock = do
    checked clock
    reject_when (λ b. leb (llm_maximum final b) b.llm_calls) llm_call_limit_exceeded
    reject_when (λ b. repair && not final && leb b.limits.max_llm_calls (b.llm_calls + 1))
        llm_call_limit_exceeded
    modify (λ b. record b { usage = record b.usage { llm_calls = b.llm_calls + 1 } })

  unfoldable pub reserve_policy_decision : Bool → Arg F.Float → Exec (RunBudget F) (Unit {0})
  unfolding checked
  reserve_policy_decision answer_only clock = do
    checked clock
    reject_when (λ b. leb (step_maximum answer_only b) b.steps) step_limit_exceeded
    reject_when (λ b. leb (llm_maximum answer_only b) b.llm_calls) llm_call_limit_exceeded
    modify (λ b. record b {
      usage = record b.usage { steps = b.steps + 1; llm_calls = b.llm_calls + 1 };
    })

  unfoldable pub reserve_tool_call : Arg F.Float → Arg F.Float → Exec (RunBudget F) (Unit {0})
  unfolding checked positive_count
  reserve_tool_call count clock = do
    amount ← lift (positive_count count)
    checked clock
    reject_when (λ b. ltb b.limits.max_tool_calls (b.tool_calls + amount)) tool_limit_exceeded
    modify (λ b. record b { usage = record b.usage { tool_calls = b.tool_calls + amount } })

  unfoldable pub reserve_backend_call : Arg F.Float → Arg F.Float → Exec (RunBudget F) (Unit {0})
  unfolding checked positive_count
  reserve_backend_call count clock = do
    amount ← lift (positive_count count)
    checked clock
    reject_when (λ b. ltb b.limits.max_backend_calls (b.backend_calls + amount))
        backend_call_limit_exceeded
    modify (λ b. record b { usage = record b.usage { backend_calls = b.backend_calls + amount } })

  -- A refund asks no clock.
  unfoldable pub refund_unstarted_backend_call : Arg F.Float → Exec (RunBudget F) (Unit {0})
  unfolding positive_count
  refund_unstarted_backend_call count = do
    amount ← lift (positive_count count)
    reject_when (λ b. ltb b.backend_calls amount) value_error
    modify (λ b. record b { usage = record b.usage { backend_calls = b.backend_calls - amount } })

  unfoldable pub reserve_derived_assets :
      Arg F.Float → Arg F.Float → Arg F.Float → Exec (RunBudget F) (Unit {0})
  unfolding checked positive_count non_negative
  reserve_derived_assets count parent_depth clock = do
    amount ← lift (positive_count count)
    depth ← lift (non_negative parent_depth)
    checked clock
    reject_when (λ b. ltb b.limits.max_derivation_depth (depth + 1)) derivation_depth_limit_exceeded
    reject_when (λ b. ltb b.limits.max_derived_assets (b.derived_assets + amount))
        asset_limit_exceeded
    modify (λ b. record b { usage = record b.usage { derived_assets = b.derived_assets + amount } })

  unfoldable pub refund_reused_assets : Arg F.Float → Exec (RunBudget F) (Unit {0})
  unfolding positive_count
  refund_reused_assets count = do
    amount ← lift (positive_count count)
    reject_when (λ b. ltb b.derived_assets amount) value_error
    modify (λ b. record b { usage = record b.usage { derived_assets = b.derived_assets - amount } })

  unfoldable pub validate_context_size : RunBudget F → Arg F.Float → Result (Unit {0})
  unfolding non_negative
  validate_context_size b characters =
      Result.◌>>=◌ (non_negative characters)
        λ n. reject (ltb b.limits.max_context_chars n) context_limit_exceeded

  -- `max(0, limit - used)` is the truncated difference
  unfoldable pub remaining : RunBudget F → Arg F.Float → Arg F.Float → Result (RemainingBudget F)
  unfolding non_negative remaining_time_s
  remaining b current_depth clock = Result.◌>>=◌ (non_negative current_depth) λ depth.
      Result.◌>>=◌ (remaining_time_s b clock) λ left. ok (record {
        steps = b.limits.max_steps - b.steps;
        llm_calls = b.limits.max_llm_calls - b.llm_calls;
        tool_calls = b.limits.max_tool_calls - b.tool_calls;
        backend_calls = b.limits.max_backend_calls - b.backend_calls;
        derived_assets = b.limits.max_derived_assets - b.derived_assets;
        derivation_depth = b.limits.max_derivation_depth - depth;
        context_chars = b.limits.max_context_chars;
        remaining_time_s = left;
      })
