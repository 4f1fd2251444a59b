-- ===== src/Math/Tests.antt =====
-- The macros and the generator at small inputs.
use turb_os.Base.{◌≡◌, refl}
use turb_os.Math.PowerOfTwo.{top_bit, to_power_of_2}
use turb_os.Math.Random.{rand}

to_power_of_2_runs : to_power_of_2 0x1801 ≡ 0x2000
unfolding to_power_of_2 top_bit
to_power_of_2_runs = refl

rand_of_one : (rand 1).1 ≡ 16838
unfolding rand
rand_of_one = refl
