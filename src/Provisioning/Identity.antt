-- ===== src/Provisioning/Identity.antt =====
-- `ProvisioningManager._generate_unique_client_identity` (services/provisioning/manager.py).
use marzbot.Base.{
  ℕ, zero, suc, Bool, true, false, ◌||◌, [], ◌∷◌, ◌++◌, ◌==◌, if◌then◌else◌, is_some, take,
}
use marzbot.Base.Text.{codes, codes_eq}
use marzbot.Base.Table.{find}
use marzbot.Models.{Str, XuiClientRecord}
use marzbot.Session.{Session, Action, Exn, Outside, raise, pure, gets, draw, ◌>>=◌}

pub record ClientIdentity : Type 0 where
  pub client_uuid : Str
  pub username : Str
  pub email : Str
  pub sub_id : Str

-- `text.replace("-", "")`
unfoldable pub without_dashes : Str → Str
without_dashes [] = []
without_dashes (c ∷ s) = if c == b'-' then without_dashes s else c ∷ without_dashes s

-- A client that uses one of the three values.
abbrev pub is_taken_by : ClientIdentity → XuiClientRecord → Bool
is_taken_by who r =
    codes_eq r.client_uuid who.client_uuid
    || codes_eq r.username who.username
    || codes_eq r.email who.email

abbrev pub is_taken : ClientIdentity → Session → Bool
is_taken who s = is_some (find (is_taken_by who) s.xui_clients)

module _ (o : Outside) where
  -- One round of the loop: two draws.
  unfoldable pub candidate : Action ClientIdentity
  unfolding without_dashes
  candidate = do
    first ← draw o
    second ← draw o
    let client_uuid = o.uuid_str first
    let username = codes "u_" ++ take 12 (without_dashes client_uuid)
    pure (record {
      client_uuid = client_uuid;
      username = username;
      email = username ++ codes "@tg.local";
      sub_id = take 16 (o.uuid_hex second);
    })

  -- The rounds that are left. The cases of the `elim` wait for the test.
  unfoldable pub attempt : ℕ → Action ClientIdentity
  unfolding candidate
  attempt zero = raise Exn.provisioning_conflict
  attempt (suc rounds) = do
    who ← candidate
    taken ← gets (is_taken who)
    elim taken [ true ↦ attempt rounds | false ↦ pure who ]

  -- `for _ in range(10)`
  unfoldable pub generate_unique_client_identity : Action ClientIdentity
  unfolding attempt
  generate_unique_client_identity = attempt 10
