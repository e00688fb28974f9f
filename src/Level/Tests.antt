-- ===== src/Level/Tests.antt =====
-- Levels and quanta of kernel/k_sched.c at concrete states.
use yomotsu.Level.{SchedClass, SchedData}

abbrev at_top : SchedData
at_top = record { class = SchedClass.normal; cpu = 0; priority = 15; quantum = 20 }
