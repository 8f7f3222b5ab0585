-- ===== src/Random/Tests.antt =====
-- Runs of random.c that start with a generator that is not initialised.
use tiny_os.Common.{false}
use tiny_os.Random.{Random}

abbrev unused : Random
unused = record { s = λ i. 0; s_i = 0; s_j = 0; inited = false }
