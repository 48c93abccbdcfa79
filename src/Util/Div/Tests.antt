-- ===== src/Util/Div/Tests.antt =====
-- A division of kernel/util/div6432.c.
use avr_kernel.Base.{◌/◌, ◌%◌, ◌≡◌, refl, arith, some}
use avr_kernel.Util.Div.{udivmoddi4, align, reduce, subtract, reduce_aligned, finish}
use avr_kernel.Util.Div.Correct.{udivmoddi4_correct}

runs : udivmoddi4 1_000_000_000_007 35_000 ≡ some (record { quot = 28571428; rem = 20007 })
unfolding udivmoddi4 align reduce subtract reduce_aligned finish
runs = refl

udivmoddi4_correct_example :
    udivmoddi4 1_000_000_000_007 35_000
    ≡ some (record { quot = 1_000_000_000_007 / 35_000; rem = 1_000_000_000_007 % 35_000 })
udivmoddi4_correct_example =
    udivmoddi4_correct 1_000_000_000_007 35_000 (omega arith) (omega arith) (omega arith)
