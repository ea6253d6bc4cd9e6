-- ===== src/Device/Gradient.antt =====
-- The derivatives and the gradient step of the device's federatedlearning.c. A difference `x - y` is
-- the sum of x and -y, as in IEEE arithmetic.
use esp32_fl.Base.{ℕ, ◌==◌, if◌then◌else◌}
use esp32_fl.Float.{FloatArith}

module _ (fl : FloatArith) where
  open fl use {F, of_int, add, mul, neg, gt, eq}

  pub perceptron_derivative : F → F
  perceptron_derivative a = if gt a (of_int 0) then of_int 1 else of_int 0

  pub re_lu_derivative : F → F
  re_lu_derivative a = if gt a (of_int 0) then of_int 1 else of_int 0

  pub sigmoid_derivative : F → F
  sigmoid_derivative a = mul a (add (of_int 1) (neg a))

  pub activation_function_derivative_calculation : F → ℕ → F
  activation_function_derivative_calculation a activationfunctiontype =
      if activationfunctiontype == 1
      then perceptron_derivative a
      else if activationfunctiontype == 2
      then re_lu_derivative a
      else if activationfunctiontype == 3
      then sigmoid_derivative a
      else of_int 0

  pub stochastic_gradient_descent_calculation :
      (weight output deltafunction : F) (regularization : ℕ) (alpha lambda : F) → F
  stochastic_gradient_descent_calculation weight output deltafunction regularization alpha lambda =
      let slope = mul deltafunction output in
      if regularization == 0
      then mul (mul (neg alpha) deltafunction) output
      else if regularization == 1
      then (if gt weight (of_int 0)
          then mul (neg alpha) (add slope (of_int 1))
          else if eq weight (of_int 0)
          then mul (neg alpha) (add slope (of_int 0))
          else mul (neg alpha) (add slope (neg (of_int 1))))
      else if regularization == 2
      then mul (neg alpha) (add slope (mul (mul (of_int 2) lambda) weight))
      else of_int 0
