-- ===== src/Daemon/Parts.antt =====
-- The daemon's storage and manager as the program makes them: a DiskStorage and a
-- PortResourceManager.
use rubble.Prelude.{String, Bool}
use rubble.Prelude.Run.{ok, ◌>>=◌, Result}
use rubble.Storage.Disk
use rubble.Storage.Disk.{Bolt, DiskStorage}
use rubble.Neutron.{NetworkService}
use rubble.Pool.{ObjectFactory, State}
use rubble.Ipam.{allocate, manager_release}
use rubble.Daemon.{PodResources, Storage, ResourceManager}

unfoldable pub disk :
    {D Data : Type 0}
    → Bolt D Data
    → (PodResources → Result Data)
    → (Data → Result PodResources)
    → Storage (DiskStorage PodResources D)
disk bolt serializer deserializer = record {
  put = Disk.put bolt serializer deserializer;
  get = Disk.get bolt serializer deserializer;
  list = Disk.list bolt serializer deserializer;
  delete = Disk.remove bolt serializer deserializer;
}

-- A release takes the time from the factory.
unfoldable pub ports :
    {W : Type 0}
    → ObjectFactory W
    → NetworkService W
    → (String → Bool)
    → String
    → String
    → ResourceManager (State W)
ports factory service parse_ip net_id subnet_id = record {
  allocate = allocate factory service parse_ip net_id subnet_id;
  release = λ s ctx id. manager_release (factory.now s.world) s.pool ctx id >>= λ (err, p).
      ok (err, record s { pool = p });
}
