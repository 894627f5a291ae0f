-- ===== src/Dashboard/Mutations.antt =====
-- frontend/src/queries: the mutations, the calls that change something on the server, with the key
-- that they invalidate when they succeed. `hook_project` is the argument of the hook, the others
-- are those of the call. The query client refetches the queries whose keys begin with the key.
use bataudit.Prelude.{String, Option, none, some, [], ◌∷◌, ◌or_else◌}
use bataudit.Prelude.Json.{Json}
use bataudit.Web.Clients.Monitors.{NewMonitor, MonitorChange}
use bataudit.Web.Clients.Endpoint.{
  Endpoint, create_api_key, revoke_api_key, add_member, update_member_role, remove_member,
  create_invite, revoke_invite, create_project, create_user, delete_user, create_webhook,
  delete_webhook, create_monitor, update_monitor, delete_monitor, subscribe_push, unsubscribe_push,
  test_webhook, test_monitor, logout,
}
use bataudit.Dashboard.Queries.{
  Kind, Rest, texts, api_keys, members, invites, projects, users, webhooks, monitors,
}

pub record Mutation : Type 0 where
  pub mutation_fn : Endpoint
  -- The key that `onSuccess` invalidates, if there is one.
  pub invalidated : Option (Kind × Rest)

unfoldable pub use_create_api_key :
    (hook_project : Option String) (project_id name : String) → Mutation
use_create_api_key hook_project project_id name = record {
  mutation_fn = create_api_key project_id name;
  invalidated = some (api_keys, texts (hook_project ∷ []));
}

unfoldable pub use_revoke_api_key : (hook_project : Option String) (id : String) → Mutation
use_revoke_api_key hook_project id = record {
  mutation_fn = revoke_api_key id;
  invalidated = some (api_keys, texts (hook_project ∷ []));
}

unfoldable pub use_add_member : (hook_project : Option String) (email role : String) → Mutation
use_add_member hook_project email role = record {
  mutation_fn = add_member (hook_project or_else "") email role;
  invalidated = some (members, texts (hook_project ∷ []));
}

unfoldable pub use_update_member_role :
    (hook_project : Option String) (user_id role : String) → Mutation
use_update_member_role hook_project user_id role = record {
  mutation_fn = update_member_role (hook_project or_else "") user_id role;
  invalidated = some (members, texts (hook_project ∷ []));
}

unfoldable pub use_remove_member : (hook_project : Option String) (user_id : String) → Mutation
use_remove_member hook_project user_id = record {
  mutation_fn = remove_member (hook_project or_else "") user_id;
  invalidated = some (members, texts (hook_project ∷ []));
}

unfoldable pub use_create_invite : (email role : String) → Mutation
use_create_invite email role = record {
  mutation_fn = create_invite email role;
  invalidated = some (invites, texts []);
}

unfoldable pub use_revoke_invite : (id : String) → Mutation
use_revoke_invite id = record {
  mutation_fn = revoke_invite id;
  invalidated = some (invites, texts []);
}

unfoldable pub use_create_project : (name slug : String) → Mutation
use_create_project name slug = record {
  mutation_fn = create_project name slug;
  invalidated = some (projects, texts []);
}

unfoldable pub use_create_user : (name email password role : String) → Mutation
use_create_user name email password role = record {
  mutation_fn = create_user name email password role;
  invalidated = some (users, texts []);
}

unfoldable pub use_delete_user : (id : String) → Mutation
use_delete_user id = record { mutation_fn = delete_user id; invalidated = some (users, texts []) }

unfoldable pub use_create_webhook : (hook_project url : String) (secret : Option String) → Mutation
use_create_webhook hook_project url secret = record {
  mutation_fn = create_webhook hook_project url secret;
  invalidated = some (webhooks, texts (some hook_project ∷ []));
}

unfoldable pub use_delete_webhook : (hook_project webhook_id : String) → Mutation
use_delete_webhook hook_project webhook_id = record {
  mutation_fn = delete_webhook hook_project webhook_id;
  invalidated = some (webhooks, texts (some hook_project ∷ []));
}

unfoldable pub use_create_monitor : (hook_project : String) (body : NewMonitor) → Mutation
use_create_monitor hook_project body = record {
  mutation_fn = create_monitor body;
  invalidated = some (monitors, texts (some hook_project ∷ []));
}

unfoldable pub use_update_monitor : (hook_project id : String) (body : MonitorChange) → Mutation
use_update_monitor hook_project id body = record {
  mutation_fn = update_monitor id body;
  invalidated = some (monitors, texts (some hook_project ∷ []));
}

unfoldable pub use_delete_monitor : (hook_project id : String) → Mutation
use_delete_monitor hook_project id = record {
  mutation_fn = delete_monitor id;
  invalidated = some (monitors, texts (some hook_project ∷ []));
}

unfoldable pub use_subscribe_push : (hook_project : String) (subscription : Json) → Mutation
use_subscribe_push hook_project subscription = record {
  mutation_fn = subscribe_push hook_project subscription;
  invalidated = none;
}

unfoldable pub use_unsubscribe_push : (hook_project channel_id : String) → Mutation
use_unsubscribe_push hook_project channel_id = record {
  mutation_fn = unsubscribe_push hook_project channel_id;
  invalidated = none;
}

unfoldable pub use_test_webhook : (hook_project webhook_id : String) → Mutation
use_test_webhook hook_project webhook_id = record {
  mutation_fn = test_webhook hook_project webhook_id;
  invalidated = none;
}

unfoldable pub use_test_monitor : (id : String) → Mutation
use_test_monitor id = record { mutation_fn = test_monitor id; invalidated = none }

unfoldable pub use_logout : Mutation
use_logout = record { mutation_fn = logout; invalidated = none }
