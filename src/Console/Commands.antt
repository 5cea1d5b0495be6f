-- ===== src/Console/Commands.antt =====
-- app/console/service.py: the command that runs at the far end, and Python's `shlex.quote`. The relay
-- program of a graphic console is a text that is given.
pub mod Quoting
use seapath_webui.Common.{
  ℕ, Text, codes, leb, nat_eq, all, is_empty, Bool, true, false, ◌||◌, ◌&&◌, List, [], ◌∷◌, ◌++◌,
  if◌then◌else◌,
}

-- [a-zA-Z0-9_@%+=:,./-]
unfoldable pub is_safe : ℕ → Bool
is_safe c =
    (leb b'a' c && leb c b'z')
    || (leb b'A' c && leb c b'Z')
    || (leb b'0' c && leb c b'9')
    || nat_eq c b'_'
    || nat_eq c b'@'
    || nat_eq c b'%'
    || nat_eq c b'+'
    || nat_eq c b'='
    || (leb b',' c && leb c b'/')
    || nat_eq c b':'

abbrev pub single_quote : ℕ
single_quote = 39

abbrev pub double_quote : ℕ
double_quote = 34

-- s.replace("'", "'\"'\"'")
unfoldable pub escaped : Text → Text
escaped [] = []
escaped (c ∷ s) =
    let rest = escaped s in
    if nat_eq c single_quote
    then single_quote ∷ double_quote ∷ single_quote ∷ double_quote ∷ single_quote ∷ rest
    else c ∷ rest

-- shlex.quote
unfoldable pub quote : Text → Text
unfolding is_safe escaped
quote [] = single_quote ∷ single_quote ∷ []
quote (c ∷ s) =
    if all is_safe (c ∷ s) then c ∷ s else single_quote ∷ (escaped (c ∷ s) ++ single_quote ∷ [])

as_root : Text → Text
as_root inner = codes "sudo -n /bin/sh -c " ++ quote inner

unfoldable pub serial_inner : Text → Bool → Text
serial_inner guest true = codes "exec vm-mgr console " ++ quote guest
serial_inner guest false = codes "exec virsh -c qemu:///system console " ++ quote guest

unfoldable pub serial_command : Text → Bool → Text
unfolding as_root serial_inner
serial_command guest in_cluster = as_root (serial_inner guest in_cluster)

unfoldable pub graphic_inner : Text → Text → Text
graphic_inner relay guest =
    codes "exec python3 -I -c " ++ (quote relay ++ (codes " " ++ quote guest))

unfoldable pub graphic_command : Text → Text → Text
unfolding as_root graphic_inner
graphic_command relay guest = as_root (graphic_inner relay guest)
