-- ===== src/Conf/Settings.antt =====
-- master.c: `init_setting` takes the settings from the table of etc/simple.conf.
use sserver.Prelude.{ℕ, ◌||◌, Option, none, some, leb, if◌then◌else◌, length, take, ℤ, pos}
use sserver.Text.{Text, codes, to_unsigned}
use sserver.Conf.{Table, conf_get_str, conf_get_int}

-- `svr_setting_t`, as `init_setting` fills it
pub record SvrSetting : Type 0 where
  pub nr_max_event : ℤ
  pub nr_max_fd : ℤ
  pub mem_queue_len : ℤ
  pub max_msg_len : ℤ
  pub max_buf_len : ℤ
  pub srv_name : Text
  pub raw_buf_len : ℤ
  pub text_so : Text
  pub data_so : Text
  pub log_level : ℕ
  pub log_maxfiles : ℕ
  pub log_size : ℕ
  pub log_dir : Text
  pub mcast_ip : Text
  pub mcast_port : ℕ
  pub mcast_out_ip : Text

-- `init_setting`. A name of 32 characters or more is cut by memcpy. `none` is a write of strcpy
-- behind its array. `conf_get_str` never gives NULL, so the branches on NULL are never taken.
unfoldable pub init_setting : Table → Option (ℤ × SvrSetting)
init_setting t =
    let log_dir = conf_get_str t (codes "log_dir") in
    let mcast_ip = conf_get_str t (codes "mcast_ip") in
    let mcast_out_ip = conf_get_str t (codes "mcast_out_ip") in
    if leb 32 (length log_dir) || leb 16 (length mcast_ip) || leb 16 (length mcast_out_ip)
    then none
    else some (
      pos 0,
      record {
        nr_max_event = conf_get_int t (codes "nr_max_event");
        nr_max_fd = conf_get_int t (codes "nr_max_fd");
        mem_queue_len = conf_get_int t (codes "mem_queue_len");
        max_msg_len = conf_get_int t (codes "max_msg_len");
        max_buf_len = conf_get_int t (codes "max_buf_len");
        srv_name = take 32 (conf_get_str t (codes "srv_name"));
        raw_buf_len = conf_get_int t (codes "raw_buf_len");
        text_so = take 32 (conf_get_str t (codes "text_so"));
        data_so = take 32 (conf_get_str t (codes "data_so"));
        log_level = to_unsigned 8 (conf_get_int t (codes "log_level"));
        log_maxfiles = to_unsigned 32 (conf_get_int t (codes "log_maxfiles"));
        log_size = to_unsigned 32 (conf_get_int t (codes "log_size"));
        log_dir = log_dir;
        mcast_ip = mcast_ip;
        mcast_port = to_unsigned 16 (conf_get_int t (codes "mcast_port"));
        mcast_out_ip = mcast_out_ip;
      },
    )
