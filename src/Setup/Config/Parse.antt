-- ===== src/Setup/Config/Parse.antt =====
-- source/workload_config.c: the sections before the disks leave the workload as empty as it is.
use workload.Xml.{Xml}
