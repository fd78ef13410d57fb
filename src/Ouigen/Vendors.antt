-- ===== src/Ouigen/Vendors.antt =====
-- internal/ouigen/main.go: the vendors. A pattern is anchored at both ends and has no repetition, so
-- that it is given by the names it matches.
use randomizer.Base.{List, [], ◌∷◌, codes}
use randomizer.Ouigen.{Vendor}

unfoldable pub vendors : List Vendor
vendors =
    record { name = codes "AMD"; accepts = codes "AMD" ∷ codes "Advanced Micro Devices, Inc." ∷ [] }
    ∷ record { name = codes "ASUS"; accepts = codes "ASUSTek COMPUTER INC." ∷ [] }
    ∷ record {
      name = codes "AVM";
      accepts =
          codes "AVM Audiovisuelles Marketing und Computersysteme GmbH" ∷ codes "AVM GmbH" ∷ [];
    }
    ∷ record { name = codes "Amazon"; accepts = codes "Amazon Technologies Inc." ∷ [] }
    ∷ record { name = codes "Apple"; accepts = codes "Apple, Inc." ∷ [] }
    ∷ record { name = codes "Arduino"; accepts = codes "ARDUINO AG" ∷ [] }
    ∷ record {
      name = codes "Arista";
      accepts = codes "Arista Networks" ∷ codes "Arista Networks, Inc." ∷ [];
    }
    ∷ record { name = codes "Bosch"; accepts = codes "Robert Bosch GmbH" ∷ [] }
    ∷ record { name = codes "Broadcom"; accepts = codes "Broadcom" ∷ codes "Broadcom Limited" ∷ [] }
    ∷ record {
      name = codes "Brother";
      accepts = codes "Brother Industries, LTD." ∷ codes "Brother industries, LTD." ∷ [];
    }
    ∷ record { name = codes "Canon"; accepts = codes "CANON INC." ∷ [] }
    ∷ record {
      name = codes "Cisco";
      accepts = codes "Cisco Systems, Inc" ∷ codes "Cisco Meraki" ∷ [];
    }
    ∷ record { name = codes "Commscope"; accepts = codes "Commscope" ∷ [] }
    ∷ record {
      name = codes "D-Link";
      accepts = codes "D-Link International" ∷ codes "D-Link Corporation" ∷ [];
    }
    ∷ record { name = codes "DJI"; accepts = codes "DJI BAIWANG TECHNOLOGY CO LTD" ∷ [] }
    ∷ record { name = codes "Dell"; accepts = codes "Dell Inc." ∷ [] }
    ∷ record { name = codes "Epson"; accepts = codes "Seiko Epson Corporation" ∷ [] }
    ∷ record { name = codes "Ericsson"; accepts = codes "Ericsson AB" ∷ codes "Ericsson" ∷ [] }
    ∷ record { name = codes "Espressif"; accepts = codes "Espressif Inc." ∷ [] }
    ∷ record { name = codes "Extreme Networks"; accepts = codes "Extreme Networks, Inc." ∷ [] }
    ∷ record { name = codes "Fitbit"; accepts = codes "Fitbit, Inc." ∷ [] }
    ∷ record { name = codes "Fortinet"; accepts = codes "Fortinet, Inc." ∷ [] }
    ∷ record { name = codes "Fujitsu"; accepts = codes "FUJITSU LIMITED" ∷ [] }
    ∷ record { name = codes "Garmin"; accepts = codes "Garmin International" ∷ [] }
    ∷ record { name = codes "Gigabyte"; accepts = codes "GIGA-BYTE TECHNOLOGY CO.,LTD." ∷ [] }
    ∷ record { name = codes "Google"; accepts = codes "Google, Inc." ∷ [] }
    ∷ record { name = codes "GoPro"; accepts = codes "GoPro" ∷ [] }
    ∷ record { name = codes "H3C"; accepts = codes "New H3C Technologies Co., Ltd" ∷ [] }
    ∷ record { name = codes "HP"; accepts = codes "Hewlett Packard" ∷ codes "HP Inc." ∷ [] }
    ∷ record { name = codes "HPE"; accepts = codes "Hewlett Packard Enterprise" ∷ [] }
    ∷ record {
      name = codes "Hikvision";
      accepts = codes "Hangzhou Hikvision Digital Technology Co.,Ltd." ∷ [];
    }
    ∷ record { name = codes "Hisense"; accepts = codes "HISENSE VISUAL TECHNOLOGY CO.,LTD" ∷ [] }
    ∷ record { name = codes "Hitachi"; accepts = codes "Hitachi, Ltd." ∷ [] }
    ∷ record { name = codes "Honeywell"; accepts = codes "Honeywell" ∷ [] }
    ∷ record {
      name = codes "Huawei";
      accepts = codes "HUAWEI TECHNOLOGIES CO.,LTD" ∷ codes "Huawei Device Co., Ltd." ∷ [];
    }
    ∷ record { name = codes "IBM"; accepts = codes "IBM Corp" ∷ codes "IBM" ∷ [] }
    ∷ record {
      name = codes "Intel";
      accepts = codes "Intel Corporate" ∷ codes "Intel Corporation" ∷ [];
    }
    ∷ record { name = codes "Juniper"; accepts = codes "Juniper Networks" ∷ [] }
    ∷ record { name = codes "Konica Minolta"; accepts = codes "KONICA MINOLTA HOLDINGS, INC." ∷ [] }
    ∷ record {
      name = codes "Kyocera";
      accepts = codes "KYOCERA CORPORATION" ∷ codes "KYOCERA Corporation" ∷ [];
    }
    ∷ record {
      name = codes "LG";
      accepts = codes "LG Electronics (Mobile Communications)" ∷ codes "LG Electronics" ∷ [];
    }
    ∷ record {
      name = codes "Lenovo";
      accepts = codes "Lenovo Mobile Communication Technology Ltd." ∷ codes "Lenovo" ∷ [];
    }
    ∷ record { name = codes "Linksys"; accepts = codes "Cisco-Linksys, LLC" ∷ [] }
    ∷ record { name = codes "Logitech"; accepts = codes "Logitech" ∷ codes "Logitech, Inc" ∷ [] }
    ∷ record { name = codes "MSI"; accepts = codes "Micro-Star INTL CO., LTD." ∷ [] }
    ∷ record { name = codes "Marvell"; accepts = codes "Marvell Semiconductors" ∷ [] }
    ∷ record { name = codes "MediaTek"; accepts = codes "MediaTek Inc" ∷ [] }
    ∷ record { name = codes "Mellanox"; accepts = codes "Mellanox Technologies, Inc." ∷ [] }
    ∷ record { name = codes "Meta"; accepts = codes "Meta Platforms, Inc." ∷ [] }
    ∷ record { name = codes "Microsoft"; accepts = codes "Microsoft Corporation" ∷ [] }
    ∷ record { name = codes "MikroTik"; accepts = codes "Routerboard.com" ∷ [] }
    ∷ record {
      name = codes "Motorola";
      accepts = codes "Motorola Mobility LLC, a Lenovo Company" ∷ [];
    }
    ∷ record {
      name = codes "NEC";
      accepts = codes "NEC Platforms, Ltd." ∷ codes "NEC Corporation" ∷ [];
    }
    ∷ record { name = codes "NETGEAR"; accepts = codes "NETGEAR" ∷ [] }
    ∷ record { name = codes "NVIDIA"; accepts = codes "NVIDIA Corporation" ∷ [] }
    ∷ record {
      name = codes "NXP";
      accepts = codes "NXP Semiconductors" ∷ codes "NXP Semiconductor (Tianjin) LTD." ∷ [];
    }
    ∷ record {
      name = codes "Nintendo";
      accepts = codes "Nintendo Co.,Ltd" ∷ codes "Nintendo Co., Ltd." ∷ [];
    }
    ∷ record { name = codes "Nokia"; accepts = codes "Nokia" ∷ codes "Nokia Corporation" ∷ [] }
    ∷ record {
      name = codes "Nordic Semiconductor";
      accepts = codes "Nordic Semiconductor ASA" ∷ [];
    }
    ∷ record {
      name = codes "OPPO";
      accepts = codes "GUANGDONG OPPO MOBILE TELECOMMUNICATIONS CORP.,LTD" ∷ [];
    }
    ∷ record { name = codes "Oracle"; accepts = codes "Oracle Corporation" ∷ [] }
    ∷ record { name = codes "Palo Alto Networks"; accepts = codes "Palo Alto Networks" ∷ [] }
    ∷ record {
      name = codes "Panasonic";
      accepts = codes "Panasonic Corporation AVC Networks Company" ∷ [];
    }
    ∷ record { name = codes "Philips"; accepts = codes "Philips" ∷ [] }
    ∷ record { name = codes "QNAP"; accepts = codes "QNAP Systems, Inc." ∷ [] }
    ∷ record { name = codes "Qualcomm"; accepts = codes "Qualcomm Inc." ∷ [] }
    ∷ record {
      name = codes "Raspberry Pi";
      accepts =
          codes "Raspberry Pi Trading Ltd"
          ∷ codes "Raspberry Pi (Trading) Ltd"
          ∷ codes "Raspberry Pi Foundation"
          ∷ [];
    }
    ∷ record { name = codes "Realtek"; accepts = codes "REALTEK SEMICONDUCTOR CORP." ∷ [] }
    ∷ record { name = codes "Rockwell Automation"; accepts = codes "Rockwell Automation" ∷ [] }
    ∷ record { name = codes "Roku"; accepts = codes "Roku, Inc" ∷ codes "Roku, Inc." ∷ [] }
    ∷ record { name = codes "Ruckus"; accepts = codes "Ruckus Wireless" ∷ [] }
    ∷ record {
      name = codes "STMicroelectronics";
      accepts =
          codes "STMicrolectronics International NV"
          ∷ codes "STMicroelectronics International NV"
          ∷ [];
    }
    ∷ record { name = codes "Sagemcom"; accepts = codes "Sagemcom Broadband SAS" ∷ [] }
    ∷ record { name = codes "Samsung"; accepts = codes "Samsung Electronics Co.,Ltd" ∷ [] }
    ∷ record { name = codes "Schneider Electric"; accepts = codes "Schneider Electric" ∷ [] }
    ∷ record { name = codes "Sharp"; accepts = codes "SHARP Corporation" ∷ [] }
    ∷ record { name = codes "Siemens"; accepts = codes "Siemens AG" ∷ codes "SIEMENS AG" ∷ [] }
    ∷ record { name = codes "Silicon Labs"; accepts = codes "Silicon Laboratories" ∷ [] }
    ∷ record { name = codes "Sonos"; accepts = codes "Sonos, Inc." ∷ [] }
    ∷ record {
      name = codes "Sony";
      accepts = codes "Sony Corporation" ∷ codes "Sony Interactive Entertainment Inc." ∷ [];
    }
    ∷ record { name = codes "Super Micro"; accepts = codes "Super Micro Computer, Inc." ∷ [] }
    ∷ record { name = codes "Synology"; accepts = codes "Synology Incorporated" ∷ [] }
    ∷ record {
      name = codes "TCL";
      accepts = codes "TCL King Electrical Appliances(Huizhou)Co.,Ltd" ∷ [];
    }
    ∷ record {
      name = codes "TP-Link";
      accepts =
          codes "TP-LINK TECHNOLOGIES CO.,LTD."
          ∷ codes "TP-Link Systems Inc"
          ∷ codes "TP-Link Systems Inc."
          ∷ [];
    }
    ∷ record { name = codes "Tesla"; accepts = codes "Tesla,Inc." ∷ [] }
    ∷ record { name = codes "Texas Instruments"; accepts = codes "Texas Instruments" ∷ [] }
    ∷ record { name = codes "Toshiba"; accepts = codes "Toshiba" ∷ [] }
    ∷ record { name = codes "Ubiquiti"; accepts = codes "Ubiquiti Inc" ∷ [] }
    ∷ record { name = codes "VMware"; accepts = codes "VMware, Inc." ∷ [] }
    ∷ record { name = codes "Vizio"; accepts = codes "Vizio, Inc" ∷ [] }
    ∷ record {
      name = codes "Xerox";
      accepts = codes "XEROX CORPORATION" ∷ codes "Xerox Corporation" ∷ [];
    }
    ∷ record { name = codes "Xiaomi"; accepts = codes "Xiaomi Communications Co Ltd" ∷ [] }
    ∷ record { name = codes "ZTE"; accepts = codes "zte corporation" ∷ [] }
    ∷ record {
      name = codes "Zebra";
      accepts = codes "Zebra Technologies Inc" ∷ codes "Zebra Technologies Inc." ∷ [];
    }
    ∷ record { name = codes "eero"; accepts = codes "eero inc." ∷ [] }
    ∷ record { name = codes "vivo"; accepts = codes "vivo Mobile Communication Co., Ltd." ∷ [] }
    ∷ []
