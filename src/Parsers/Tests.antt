-- ===== src/Parsers/Tests.antt =====
-- The word "sporadic" on QNX.
use microkernel_benchmark.Prelude.{◌≡◌, ◌↔◌}
use microkernel_benchmark.Prelude.Program.{finished}
use microkernel_benchmark.Policy.{qnx, sporadic}
use microkernel_benchmark.Policy.Agreement.{IsNamed}
use microkernel_benchmark.Parsers.{burst, parser, parser-IsNamed}

parser-IsNamed_example :
    ((parser burst qnx "sporadic").result ≡ finished sporadic) ↔ IsNamed qnx "sporadic" sporadic
parser-IsNamed_example = parser-IsNamed burst qnx "sporadic" sporadic
