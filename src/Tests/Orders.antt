-- ===== src/Tests/Orders.antt =====
-- A health check of two sessions in both orders.
use mathlib.Core.List.{Permᴰ}
use stradvision.Common.{ℕ, List, [], refl, ◌==◌, ◌∷◌}
use stradvision.Controller.{Controller, Entry}
use stradvision.Controller.Health.{health_check}
use stradvision.Controller.Order.{health_check-AreAlike}
use stradvision.Controller.Order.Same.{Alike, AreAlike}
use stradvision.Message.{hello}
use stradvision.Tests.Controllers.{agent_seven, joined, naturals, nothing_there}
use stradvision.Tests.Policies.{above, below}

-- Agent 8 on connection 6, whose socket is not open.
abbrev agent_eight : Entry
agent_eight = record agent_seven {
  sid = 1;
  conn = 6;
  session = record agent_seven.session { id = 8; msg_set_mode = 200 };
}

abbrev entries : List (ℕ × Entry)
entries = (7, agent_seven) ∷ (8, agent_eight) ∷ []

abbrev entries_back : List (ℕ × Entry)
entries_back = (8, agent_eight) ∷ (7, agent_seven) ∷ []

abbrev two_agents : Controller
two_agents = record joined {
  sessions = entries;
  messages = record joined.messages { pool = 300 ∷ 400 ∷ [] };
  policies = above ∷ below ∷ [];
}

abbrev two_agents_back : Controller
two_agents_back = record two_agents {
  sessions = entries_back;
  messages = record joined.messages { pool = 400 ∷ 300 ∷ [] };
}

two_agents-Alike : Alike two_agents two_agents_back
two_agents-Alike = record {
  sessions = Permᴰ.swap refl refl;
  pool = Permᴰ.swap refl refl;
  rest = refl;
}

health_check-AreAlike_example :
    AreAlike
      (health_check naturals hello nothing_there 2 (λ conn. conn == 5) two_agents)
      (health_check naturals hello nothing_there 2 (λ conn. conn == 5) two_agents_back)
health_check-AreAlike_example =
    health_check-AreAlike naturals hello nothing_there 2 (λ conn. conn == 5) two_agents
      two_agents_back two_agents-Alike
