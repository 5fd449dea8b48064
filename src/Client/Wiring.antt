-- ===== src/Client/Wiring.antt =====
-- NewServer: the queues that the dispatcher polls and the scheduler promotes.
use mini_sidekiq.Prelude.{
  ◌<◌, ◌+◌, ℕ, pos, negsuc, refl, ◌∙◌, if◌then◌else◌, String, ◌≡◌, subst, List, [], ◌∷◌, map, count,
  ℤ, ◌==◌, arith, Bool-cases, inl, inr,
}
use mini_sidekiq.Dispatcher.{new_dispatcher}
use mini_sidekiq.Scheduler.{new_scheduler}
use mini_sidekiq.Dispatcher.Polling.{total_weight, count-build_poll_schedule}
use mini_sidekiq.Client.{ServerConfig, Server, new_server, queue_config, queue_name}

-- How often the configuration wants a name to be polled in a pass: the sum of its positive weights.
abbrev pub wanted_polls : String → List (String × ℤ) → ℕ
wanted_polls name [] = 0
wanted_polls name ((q, pos n) ∷ queues) = (if q == name then n else 0) + wanted_polls name queues
wanted_polls name ((q, negsuc n) ∷ queues) = wanted_polls name queues

total_weight-eq :
    (name : String) (queues : List (String × ℤ))
    → total_weight name (map queue_config queues) ≡ wanted_polls name queues
total_weight-eq name [] = refl
total_weight-eq name ((q, pos n) ∷ queues) = ground (arith, total_weight-eq name queues)
total_weight-eq name ((q, negsuc n) ∷ queues) = ground (arith, total_weight-eq name queues)

weight-named :
    (name : String) (queues : List (String × ℤ))
    → 0 < total_weight name (map queue_config queues)
    → 0 < count name (map queue_name queues)
weight-named name [] h = absurd (omega arith)
weight-named name ((q, weight) ∷ queues) h = elim (Bool-cases (q == name)) [
  | inl e ↦ rw e (omega arith)
  | inr e ↦
      let rest : 0 < total_weight name (map queue_config queues) = ground (arith, h, e) in
      omega (arith, weight-named name queues rest)
]

-- The server that NewServer builds polls each queue as often in a pass as its positive weights in
-- the configuration add up to, and lists for the scheduler every queue that it polls.
pub new_server-covers :
    (Env : Type 0) (cfg : ServerConfig) (name : String)
    → let server : Server Env = new_server cfg in
      (count name server.dispatcher.schedule ≡ wanted_polls name cfg.queues)
      × (0 < count name server.dispatcher.schedule → 0 < count name server.scheduler.queues)
unfolding new_server new_dispatcher new_scheduler
new_server-covers Env cfg name =
    let e = count-build_poll_schedule name (map queue_config cfg.queues) in
    (
      e ∙ total_weight-eq name cfg.queues,
      λ h. weight-named name cfg.queues (subst (λ n. 0 < n) e h),
    )
