-- ===== src/Tests/Dbus.antt =====
-- The interfaces on the bus: what is served against what the proxies declare.
use one_true_pairing.Common.{◌≡◌, refl, List, map}
use one_true_pairing.Common.Bytes.{Bytes}
use one_true_pairing.Dbus.{Member, BusInterface, Signature, signature}
use one_true_pairing.Dbus.Notifier.{status_notifier_item, menu}
use one_true_pairing.Dbus.TrayIcon.{tray_icon, context_menu}

-- A member as the bus sees it: its name, and signatures for its types.
data Described : Type 0 where
  method : Bytes → List Signature → Signature → Described
  property : Bytes → Signature → Described
  setter : Bytes → Signature → Described
  signal : Bytes → List Signature → Described

abbrev described : Member → Described
described (Member.method name args result) =
    Described.method name (map signature args) (signature result)
described (Member.property name t) = Described.property name (signature t)
described (Member.setter name t) = Described.setter name (signature t)
described (Member.signal name args) = Described.signal name (map signature args)

-- Two declarations of one interface that callers cannot tell apart.
record Agrees (a b : BusInterface) : Type 0 where
  same_name : a.interface ≡ b.interface
  same_members : map described a.members ≡ map described b.members

tray_icon-Agrees : Agrees tray_icon status_notifier_item
unfolding signature
tray_icon-Agrees = record { same_name = refl; same_members = refl }

context_menu-Agrees : Agrees context_menu menu
unfolding signature
context_menu-Agrees = record { same_name = refl; same_members = refl }
