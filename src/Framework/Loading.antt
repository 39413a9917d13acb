-- ===== src/Framework/Loading.antt =====
-- `load_modules` of zsr/framework.c: the modules that it registers, in its order.
use zsr.Prelude.{
  ◌<◌, Bool, true, false, not, ◌&&◌, ◌||◌, same_text, arith, ◌≡◌, refl, List, [], ◌∷◌, Bytes,
  length, map, All,
}
use zsr.Framework.{Handlers, Module}
use zsr.Framework.Catalogue.{
  mod_cpu_register, mod_dns_register, mod_fs_register, mod_gateway_register, mod_io_register,
  mod_ip_register, mod_load_avg_register, mod_mem_register, mod_network_register, mod_proc_register,
  mod_swap_register, mod_time_register, mod_uptime_register, mod_who_register,
}

-- The handlers of each module.
pub record AllHandlers (S R : Type 0) : Type 0 where
  pub cpu : Handlers S R
  pub dns : Handlers S R
  pub fs : Handlers S R
  pub gateway : Handlers S R
  pub io : Handlers S R
  pub ip : Handlers S R
  pub load_avg : Handlers S R
  pub mem : Handlers S R
  pub network : Handlers S R
  pub proc : Handlers S R
  pub swap : Handlers S R
  pub time : Handlers S R
  pub uptime : Handlers S R
  pub who : Handlers S R

module _ {S R : Type 0} where
  unfoldable pub load_modules : AllHandlers S R → List (Module S R) → List (Module S R)
  unfolding mod_cpu_register mod_dns_register mod_fs_register mod_gateway_register mod_io_register
      mod_ip_register mod_load_avg_register mod_mem_register mod_network_register mod_proc_register
      mod_swap_register mod_time_register mod_uptime_register mod_who_register
  load_modules hs mods =
      let mods1 = mod_cpu_register hs.cpu mods in
      let mods2 = mod_dns_register hs.dns mods1 in
      let mods3 = mod_fs_register hs.fs mods2 in
      let mods4 = mod_gateway_register hs.gateway mods3 in
      let mods5 = mod_io_register hs.io mods4 in
      let mods6 = mod_ip_register hs.ip mods5 in
      let mods7 = mod_load_avg_register hs.load_avg mods6 in
      let mods8 = mod_mem_register hs.mem mods7 in
      let mods9 = mod_network_register hs.network mods8 in
      let mods10 = mod_proc_register hs.proc mods9 in
      let mods11 = mod_swap_register hs.swap mods10 in
      let mods12 = mod_time_register hs.time mods11 in
      let mods13 = mod_uptime_register hs.uptime mods12 in
      let mods14 = mod_who_register hs.who mods13 in mods14

-- The buffers of `module_t` that `sprintf` fills hold the texts with their NUL.
pub record Fits (S R : Type 0) (m : Module S R) : Type 0 where
  pub name_fits : length m.name < 32
  pub opt_fits : length m.opt_line < 32
  pub usage_fits : length m.usage < 256

abbrev pub occurs : Bytes → List Bytes → Bool
occurs t [] = false
occurs t (u ∷ us) = same_text u t || occurs t us

-- No text stands twice in the list.
abbrev pub distinct : List Bytes → Bool
distinct [] = true
distinct (t ∷ ts) = not (occurs t ts) && distinct ts

-- Whatever the handlers do: there are fourteen modules, each fits into its buffers, and no two have
-- one option.
load_modules-Fits :
    {S R : Type 0} (hs : AllHandlers S R)
    → (length (load_modules hs []) ≡ 14)
      × All (Fits S R) (load_modules hs [])
      × (distinct (map (λ (m : Module S R). m.opt_line) (load_modules hs [])) ≡ true)
unfolding load_modules same_text
load_modules-Fits hs = (refl, omega arith, refl)
