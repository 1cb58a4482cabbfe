-- ===== src/Sketch/Bloom/Tests.antt =====
-- A small Bloom filter at work.
use agent_guard_fast_path.Common.{◌≡◌, refl, true, false, arith, replicate}
use agent_guard_fast_path.Text.{codes}
use agent_guard_fast_path.Hash.{fnv1a64, mix64}
use agent_guard_fast_path.Sketch.Bloom.{Bloom, bloom_init, bloom_add, bloom_might_contain}
use agent_guard_fast_path.Sketch.Bloom.Membership.{
  IsValid, bloom_init_lem, bloom_add-IsValid, bloom_might_contain-bloom_add_self,
  bloom_might_contain-bloom_add,
}

abbrev small : Bloom
small = bloom_init 64 3

runs :
    (bloom_might_contain (bloom_add small (codes "/etc/shadow")) (codes "/etc/shadow") ≡ true)
    × (bloom_might_contain (bloom_add small (codes "/etc/shadow")) (codes "/tmp/x") ≡ false)
unfolding bloom_init bloom_add bloom_might_contain fnv1a64 mix64 replicate
runs = (refl, refl)

small-IsValid : IsValid small
small-IsValid = (bloom_init_lem 64 3 (omega arith) (omega arith)).0

self_reported :
    bloom_might_contain (bloom_add small (codes "/etc/shadow")) (codes "/etc/shadow") ≡ true
self_reported = bloom_might_contain-bloom_add_self small (codes "/etc/shadow") small-IsValid refl

bloom_might_contain-bloom_add_self_example :
    bloom_might_contain (bloom_add small (codes "/etc/shadow")) (codes "/etc/shadow") ≡ true
bloom_might_contain-bloom_add_self_example =
    bloom_might_contain-bloom_add_self small (codes "/etc/shadow") small-IsValid refl

bloom_might_contain-bloom_add_example :
    bloom_might_contain
      (bloom_add (bloom_add small (codes "/etc/shadow")) (codes "b"))
      (codes "/etc/shadow")
    ≡ true
bloom_might_contain-bloom_add_example =
    bloom_might_contain-bloom_add (bloom_add small (codes "/etc/shadow")) (codes "b")
      (codes "/etc/shadow") (bloom_add-IsValid small (codes "/etc/shadow") small-IsValid)
      self_reported
