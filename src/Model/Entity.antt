-- ===== src/Model/Entity.antt =====
-- crates/sg-model/src/entity.rs: the entity tree.
use server_glass.Base.{Option, none, some, Text, codes, Map, insert, []}
use server_glass.Model.Ids.{EntityId, child_id}

pub data EntityKind : Type 0 where
  host_kind cpu_core disk filesystem network_interface gpu process container pod node : EntityKind
  service virtual_machine storage_pool database endpoint ups sensor : EntityKind
  custom : Text → EntityKind

unfoldable pub slug : EntityKind → Text
slug host_kind = codes "host"
slug cpu_core = codes "cpu"
slug disk = codes "disk"
slug filesystem = codes "fs"
slug network_interface = codes "net"
slug gpu = codes "gpu"
slug process = codes "proc"
slug container = codes "container"
slug pod = codes "pod"
slug node = codes "node"
slug service = codes "service"
slug virtual_machine = codes "vm"
slug storage_pool = codes "pool"
slug database = codes "db"
slug endpoint = codes "endpoint"
slug ups = codes "ups"
slug sensor = codes "sensor"
slug (custom s) = s

pub record Entity : Type 0 where
  pub id : EntityId
  pub kind : EntityKind
  pub display : Text
  pub parent : Option EntityId
  pub labels : Map Text

-- `Entity::host`
unfoldable pub host_entity : Text → Entity
host_entity display = record {
  id = codes "host";
  kind = host_kind;
  display = display;
  parent = none;
  labels = [];
}

-- `Entity::child`
unfoldable pub child_entity : Entity → EntityKind → Text → Entity
unfolding slug child_id
child_entity parent kind name = record {
  id = child_id parent.id (slug kind) name;
  kind = kind;
  display = name;
  parent = some parent.id;
  labels = [];
}

-- `Entity::with_label`
unfoldable pub label_entity : Entity → Text → Text → Entity
label_entity e key value = record e { labels = insert key value e.labels }
