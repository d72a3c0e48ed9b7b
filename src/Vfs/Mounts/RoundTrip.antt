-- ===== src/Vfs/Mounts/RoundTrip.antt =====
-- os_vfs_mount and then os_vfs_unmount.
use dreamos_cversion.Base.{Bool, true, false}
use dreamos_cversion.Vfs.Mounts.Change.{Vfs, VfsErr, ok}

-- A branch that does not give OS_ERR_OK is not the one.
abbrev is_done : VfsErr → Bool
is_done ok = true
is_done _ = false
