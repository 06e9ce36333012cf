-- ===== src/AclService/Traces/Owners.antt =====
-- The comparison of a door's owner writes nothing.
use smart_gatekeeper.Common.{Option, none, some}
use smart_gatekeeper.Common.Text.{Text}
use smart_gatekeeper.AclService.{Config}
use smart_gatekeeper.AclService.Publishing.{owned_by}
use smart_gatekeeper.AclService.Traces.{IsTraced, traced}

pub owned_by-IsTraced :
    (c : Config) (tenant_id : Text) (owner : Option Text) → IsTraced c (owned_by tenant_id owner)
unfolding owned_by
owned_by-IsTraced c tenant_id none = search traced depth 20
owned_by-IsTraced c tenant_id (some owner) = search traced depth 20
